-- ===== src/Kerberos/Base64.antt =====
-- base64 in the standard alphabet with padding.
pub mod RoundTrip
use csi_driver_smb.Base.{
  ℕ, ◌+◌, ◌-◌, ◌*◌, ◌/◌, ◌%◌, ◌&&◌, ◌||◌, List, [], ◌∷◌, ◌++◌, if◌then◌else◌, ltb, leb, ◌==◌,
  Option, none, some,
}
use csi_driver_smb.Text.{Text, codes}

-- the letter of a number below 64
unfoldable pub letter : ℕ → ℕ
letter n =
    if ltb n 26
    then b'A' + n
    else if ltb n 52
    then b'a' + (n - 26)
    else if ltb n 62
    then b'0' + (n - 52)
    else if n == 62
    then b'+'
    else b'/'

unfoldable pub encode : Text → Text
unfolding letter
encode [] = []
encode (a ∷ []) = letter (a / 4) ∷ letter (a % 4 * 16) ∷ b'=' ∷ b'=' ∷ []
encode (a ∷ b ∷ []) =
    letter (a / 4) ∷ letter (a % 4 * 16 + b / 16) ∷ letter (b % 16 * 4) ∷ b'=' ∷ []
encode (a ∷ b ∷ c ∷ s) =
    letter (a / 4)
    ∷ letter (a % 4 * 16 + b / 16)
    ∷ letter (b % 16 * 4 + c / 64)
    ∷ letter (c % 64)
    ∷ encode s

-- the number of a letter
unfoldable pub value : ℕ → Option ℕ
value c =
    if leb b'A' c && leb c b'Z'
    then some (c - b'A')
    else if leb b'a' c && leb c b'z'
    then some (c - b'a' + 26)
    else if leb b'0' c && leb c b'9'
    then some (c - b'0' + 52)
    else if c == b'+'
    then some 62
    else if c == b'/'
    then some 63
    else none

-- line ends are passed over
drop_newlines : Text → Text
drop_newlines [] = []
drop_newlines (c ∷ s) = let rest = drop_newlines s in if c == 10 || c == 13 then rest else c ∷ rest

infixl 5 ◌>>=◌
abbrev ◌>>=◌ : {A B : Type 0} → Option A → (A → Option B) → Option B
none >>= f = none
some a >>= f = f a

-- two letters of the last group
pair_bytes : ℕ → ℕ → Text
pair_bytes p q = ((p * 4 + q / 16) % 256) ∷ []

triple_bytes : ℕ → ℕ → ℕ → Text
triple_bytes p q r = ((p * 4 + q / 16) % 256) ∷ ((q * 16 + r / 4) % 256) ∷ []

quad_bytes : ℕ → ℕ → ℕ → ℕ → Text
quad_bytes p q r t = ((p * 4 + q / 16) % 256) ∷ ((q * 16 + r / 4) % 256) ∷ ((r * 64 + t) % 256) ∷ []

-- the last group of four, which may be padded
last_group : ℕ → ℕ → ℕ → ℕ → Option Text
unfolding value pair_bytes triple_bytes quad_bytes
last_group a b c d =
    if d == b'='
    then if c == b'='
      then (do p ← value a; q ← value b; some (pair_bytes p q))
      else (do p ← value a; q ← value b; r ← value c; some (triple_bytes p q r))
    else (do p ← value a; q ← value b; r ← value c; t ← value d; some (quad_bytes p q r t))

decode_groups : Text → Option Text
unfolding last_group
decode_groups [] = some []
decode_groups (a ∷ b ∷ c ∷ d ∷ []) = last_group a b c d
decode_groups (a ∷ b ∷ c ∷ d ∷ e ∷ s) =
    let rest = decode_groups (e ∷ s) in
    (do
      p ← value a
      q ← value b
      r ← value c
      t ← value d
      bytes ← rest
      some (quad_bytes p q r t ++ bytes))
decode_groups _ = none

-- base64.StdEncoding.DecodeString
unfoldable pub decode : Text → Option Text
unfolding drop_newlines decode_groups
decode s = decode_groups (drop_newlines s)
