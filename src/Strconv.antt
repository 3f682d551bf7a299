-- ===== src/Strconv.antt =====
-- Go's strconv and fmt on integers, as far as the driver calls them: Atoi, ParseInt at base 0, and
-- the verbs %d and %o.
use Prim.Native.Nat.{◌^◌}
use csi_driver_smb.Base.{
  ℕ, zero, suc, ◌+◌, ◌-◌, ◌*◌, ◌/◌, ◌%◌, Bool, true, false, not, ◌&&◌, ◌||◌, Option, none, some, [],
  ◌∷◌, if◌then◌else◌, ltb, leb, ◌==◌, is_empty, any,
}
use csi_driver_smb.Base.Int.{ℤ, pos, negsuc}
use csi_driver_smb.Text.{Text, codes, lower_byte}

abbrev pub is_digit : ℕ → Bool
is_digit c = leb b'0' c && leb c b'9'

abbrev is_lower : ℕ → Bool
is_lower c = leb b'a' c && leb c b'z'

-- the value of a digit or a letter as a digit
unfoldable pub digit_value : ℕ → Option ℕ
digit_value c =
    if is_digit c
    then some (c - b'0')
    else if is_lower (lower_byte c)
    then some (lower_byte c - b'a' + 10)
    else none

abbrev pub max_uint64 : ℕ
max_uint64 = 2 ^ 64 - 1

abbrev pub max_int64 : ℕ
max_int64 = 2 ^ 63 - 1

add_digit : ℕ → ℕ → ℕ → Option ℕ
add_digit base n d =
    if leb base d then none else if ltb max_uint64 (n * base + d) then none else some (n * base + d)

-- The digit loop of ParseUint. A result that does not fit is an error, as a bad digit is; a `_` is
-- passed over where `underscores` are allowed.
unfoldable pub parse_digits : ℕ → Bool → ℕ → Text → Option ℕ
unfolding digit_value add_digit
parse_digits base underscores n [] = some n
parse_digits base underscores n (c ∷ s) =
    let skipped = parse_digits base underscores n s in
    if underscores && c == b'_' then skipped else elim (digit_value c) [
      | none ↦ none
      | some d ↦ elim (add_digit base n d) [
        | none ↦ none
        | some m ↦ parse_digits base underscores m s
      ]
    ]

-- the class of the last byte that underscoreOK has read: `^`, `0`, `_` or `!`
pub data Seen : Type 0 where
  nothing digit underscore other : Seen

underscores_ok : Bool → Seen → Text → Bool
underscores_ok hex underscore [] = false
underscores_ok hex _ [] = true
underscores_ok hex seen (c ∷ s) =
    let after_digit = underscores_ok hex digit s in
    let after_underscore = underscores_ok hex underscore s in
    let after_other = underscores_ok hex other s in
    if is_digit c || hex && (leb b'a' (lower_byte c) && leb (lower_byte c) b'f')
    then after_digit
    else if c == b'_'
    then elim seen [ digit ↦ after_underscore | _ ↦ false ]
    else elim seen [ underscore ↦ false | _ ↦ after_other ]

parse_base : ℕ → Bool → Seen → Text → Option ℕ
unfolding parse_digits underscores_ok
parse_base base hex seen s = if underscores_ok hex seen s then parse_digits base true 0 s else none

-- the prefixes `0b`, `0o` and `0x` want a byte behind them
parse_prefixed : Text → Option ℕ
unfolding parse_base
parse_prefixed [] = none
parse_prefixed (c ∷ []) = if c == b'0' then some 0 else parse_base 10 false nothing (c ∷ [])
parse_prefixed (c ∷ p ∷ s) =
    if not (c == b'0')
    then parse_base 10 false nothing (c ∷ p ∷ s)
    else if is_empty s || not (any (λ l. l == lower_byte p) (codes "box"))
    then parse_base 8 false digit (p ∷ s)
    else if lower_byte p == b'b'
    then parse_base 2 false digit s
    else if lower_byte p == b'o'
    then parse_base 8 false digit s
    else parse_base 16 true digit s

-- the sign that a text begins with
pub data Sign : Type 0 where
  plus minus unsigned : Sign

sign_of : ℕ → Sign
sign_of c = if c == b'+' then plus else if c == b'-' then minus else unsigned

-- an int64 from a magnitude
fit : Sign → Option ℕ → Option ℤ
fit sign none = none
fit minus (some zero) = some (pos 0)
fit minus (some (suc n)) = if leb n max_int64 then some (negsuc n) else none
fit sign (some n) = if leb n max_int64 then some (pos n) else none

-- strconv.ParseInt(s, 0, 0)
unfoldable pub parse_int : Text → Option ℤ
unfolding parse_prefixed sign_of fit
parse_int [] = none
parse_int (c ∷ s) = elim (sign_of c) [
  | plus ↦ fit plus (parse_prefixed s)
  | minus ↦ fit minus (parse_prefixed s)
  | unsigned ↦ fit unsigned (parse_prefixed (c ∷ s))
]

parse_decimal : Text → Option ℕ
unfolding parse_digits
parse_decimal [] = none
parse_decimal (c ∷ s) = parse_digits 10 false 0 (c ∷ s)

-- strconv.Atoi(s)
unfoldable pub atoi : Text → Option ℤ
unfolding parse_decimal sign_of fit
atoi [] = none
atoi (c ∷ s) = elim (sign_of c) [
  | plus ↦ fit plus (parse_decimal s)
  | minus ↦ fit minus (parse_decimal s)
  | unsigned ↦ fit unsigned (parse_decimal (c ∷ s))
]

-- The digits of a number, in front of `out`; `none` left of the fuel is never met, since a number
-- has at most as many digits as its size.
write_digits : ℕ → ℕ → ℕ → Text → Text
write_digits base zero n out = out
write_digits base (suc fuel) n out =
    let rest = write_digits base fuel (n / base) ((b'0' + n % base) ∷ out) in
    if n == 0 then out else rest

-- strconv.FormatUint(n, base)
unfoldable pub format : ℕ → ℕ → Text
unfolding write_digits
format base n = if n == 0 then b'0' ∷ [] else write_digits base n n []

-- %d
unfoldable pub itoa : ℤ → Text
unfolding format
itoa (pos n) = format 10 n
itoa (negsuc n) = b'-' ∷ format 10 (suc n)
