-- ===== src/Kerberos/Base64/RoundTrip.antt =====
-- Decoding what was encoded.
use csi_driver_smb.Base.{
  ℕ, ◌≡◌, ◌∙◌, refl, false, some, ◌+◌, ◌*◌, ◌/◌, ◌%◌, ◌<◌, [], ◌∷◌, ◌++◌, ◌==◌, ◌||◌, All, arith,
}
use csi_driver_smb.Text.{Text}
use csi_driver_smb.Kerberos.Base64.{
  letter, value, encode, drop_newlines, decode_groups, last_group, quad_bytes, triple_bytes,
  pair_bytes, decode,
}

abbrev pub IsByte : ℕ → Type 0
IsByte c = c < 256

value-letter : (n : ℕ) → n < 64 → value (letter n) ≡ some n
unfolding value letter
value-letter n h = ground arith

letter-pad : (n : ℕ) → (letter n == b'=') ≡ false
unfolding letter
letter-pad n = ground arith

-- a letter is no line end
letter-line : (n : ℕ) → (letter n == 10 || letter n == 13) ≡ false
unfolding letter
letter-line n = ground arith

drop_newlines-encode : (s : Text) → drop_newlines (encode s) ≡ encode s
unfolding drop_newlines encode
drop_newlines-encode [] = refl
drop_newlines-encode (a ∷ []) = rw (letter-line (a / 4), letter-line (a % 4 * 16)) refl
drop_newlines-encode (a ∷ b ∷ []) =
    rw (letter-line (a / 4), letter-line (a % 4 * 16 + b / 16), letter-line (b % 16 * 4)) refl
drop_newlines-encode (a ∷ b ∷ c ∷ s) =
    rw
      (
        letter-line (a / 4),
        letter-line (a % 4 * 16 + b / 16),
        letter-line (b % 16 * 4 + c / 64),
        letter-line (c % 64),
        drop_newlines-encode s,
      )
      refl

quad-decode_groups :
    (p q r t : ℕ) (rest bytes : Text)
    → p < 64
    → q < 64
    → r < 64
    → t < 64
    → decode_groups rest ≡ some bytes
    → decode_groups (letter p ∷ letter q ∷ letter r ∷ letter t ∷ rest)
      ≡ some (quad_bytes p q r t ++ bytes)
unfolding decode_groups last_group quad_bytes
quad-decode_groups p q r t [] bytes hp hq hr ht h =
    rw (letter-pad t, value-letter p hp, value-letter q hq, value-letter r hr, value-letter t ht) cc
quad-decode_groups p q r t (e ∷ s) bytes hp hq hr ht h =
    rw (value-letter p hp, value-letter q hq, value-letter r hr, value-letter t ht, h) refl

first-byte : (a b : ℕ) → a < 256 → b < 256 → (a / 4 * 4 + (a % 4 * 16 + b / 16) / 16) % 256 ≡ a
first-byte a b ha hb = omega arith

second-byte :
    (a b c : ℕ)
    → b < 256
    → c < 256
    → ((a % 4 * 16 + b / 16) * 16 + (b % 16 * 4 + c / 64) / 4) % 256 ≡ b
second-byte a b c hb hc = omega arith

third-byte : (b c : ℕ) → c < 256 → ((b % 16 * 4 + c / 64) * 64 + c % 64) % 256 ≡ c
third-byte b c hc = omega arith

only-byte : (a : ℕ) → a < 256 → (a / 4 * 4 + a % 4 * 16 / 16) % 256 ≡ a
only-byte a ha = omega arith

last-byte : (a b : ℕ) → b < 256 → ((a % 4 * 16 + b / 16) * 16 + b % 16 * 4 / 4) % 256 ≡ b
last-byte a b hb = omega arith

decode_groups-encode : (s : Text) → All IsByte s → decode_groups (encode s) ≡ some s
unfolding decode_groups encode last_group pair_bytes triple_bytes quad_bytes
decode_groups-encode [] h = refl
decode_groups-encode (a ∷ []) (ha, _) =
    rw (value-letter (a / 4) (omega arith), value-letter (a % 4 * 16) (omega arith), only-byte a ha)
      refl
decode_groups-encode (a ∷ b ∷ []) (ha, (hb, _)) =
    rw
      (
        letter-pad (b % 16 * 4),
        value-letter (a / 4) (omega arith),
        value-letter (a % 4 * 16 + b / 16) (omega arith),
        value-letter (b % 16 * 4) (omega arith),
        first-byte a b ha hb,
        last-byte a b hb,
      )
      refl
decode_groups-encode (a ∷ b ∷ c ∷ s) (ha, (hb, (hc, hs))) =
    quad-decode_groups (a / 4) (a % 4 * 16 + b / 16) (b % 16 * 4 + c / 64) (c % 64) (encode s) s
      (omega arith) (omega arith) (omega arith) (omega arith) (decode_groups-encode s hs)
    ∙ rw (first-byte a b ha hb, second-byte a b c hb hc, third-byte b c hc) refl

-- Decoding gives back every text of bytes that was encoded.
pub decode-encode : (s : Text) → All IsByte s → decode (encode s) ≡ some s
unfolding decode
decode-encode s h = rw (drop_newlines-encode s) (decode_groups-encode s h)
