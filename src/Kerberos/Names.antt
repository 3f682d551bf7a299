-- ===== src/Kerberos/Names.antt =====
-- The name of the file that stands for the Kerberos cache of a volume.
use csi_driver_smb.Base.{
  ℕ, ◌≡◌, refl, sym, ◌∙◌, ap, Bool, false, [], ◌∷◌, ◌==◌, All, arith, ◌/◌, ◌%◌, ◌+◌, ◌*◌,
}
use csi_driver_smb.Text.{Text, replace_byte}
use csi_driver_smb.Text.Parts.{Lacks}
use csi_driver_smb.Kerberos.{volume_kerberos_cache_name}
use csi_driver_smb.Kerberos.Base64.{letter, encode, decode}
use csi_driver_smb.Kerberos.Base64.RoundTrip.{IsByte, decode-encode}

-- no letter, and not the padding
abbrev IsForeign : ℕ → Type 0
IsForeign b = (n : ℕ) → (letter n == b) ≡ false

encode-Lacks :
    (b : ℕ) → IsForeign b → (b'=' == b) ≡ false → (s : Text) → Lacks (λ c. c == b) (encode s)
unfolding encode
encode-Lacks b f p [] = tt
encode-Lacks b f p (x ∷ []) = (f (x / 4), (f (x % 4 * 16), (p, (p, tt))))
encode-Lacks b f p (x ∷ y ∷ []) = (f (x / 4), (f (x % 4 * 16 + y / 16), (f (y % 16 * 4), (p, tt))))
encode-Lacks b f p (x ∷ y ∷ z ∷ s) = (
  f (x / 4),
  (f (x % 4 * 16 + y / 16), (f (y % 16 * 4 + z / 64), (f (z % 64), encode-Lacks b f p s))),
)

dash-IsForeign : IsForeign b'-'
unfolding letter
dash-IsForeign n = ground arith

underscore-IsForeign : IsForeign b'_'
unfolding letter
underscore-IsForeign n = ground arith

-- the byte that came in can be taken out again
replace_byte-back :
    (a b : ℕ) (s : Text) → Lacks (λ c. c == b) s → replace_byte b a (replace_byte a b s) ≡ s
unfolding replace_byte
replace_byte-back a b [] h = refl
replace_byte-back a b (c ∷ s) (hc, hs) = ground (arith, replace_byte-back a b s hs)

replace_byte-Lacks :
    (a b : ℕ) (p : ℕ → Bool) (s : Text) → p b ≡ false → Lacks p s → Lacks p (replace_byte a b s)
unfolding replace_byte
replace_byte-Lacks a b p [] hb h = tt
replace_byte-Lacks a b p (c ∷ s) hb (hc, hs) = (ground arith, replace_byte-Lacks a b p s hb hs)

replace_byte-gone :
    (a b : ℕ) (s : Text) → (b == a) ≡ false → Lacks (λ c. c == a) (replace_byte a b s)
unfolding replace_byte
replace_byte-gone a b [] h = tt
replace_byte-gone a b (c ∷ s) h = (ground arith, replace_byte-gone a b s h)

-- the encoding behind a name
restore : Text → Text
restore name = replace_byte b'-' b'/' (replace_byte b'_' b'+' name)

restore-name : (s : Text) → restore (volume_kerberos_cache_name s) ≡ encode s
unfolding restore volume_kerberos_cache_name
restore-name s =
    rw
      (
        replace_byte-back b'+' b'_' (replace_byte b'/' b'-' (encode s)) (
            replace_byte-Lacks b'/' b'-' (λ c. c == b'_') (encode s) refl
              (encode-Lacks b'_' underscore-IsForeign refl s)),
        replace_byte-back b'/' b'-' (encode s) (encode-Lacks b'-' dash-IsForeign refl s),
      )
      refl

-- The cache name of a volume id holds no slash, so it names a file in the directory of the caches.
pub volume_kerberos_cache_name-slash :
    (s : Text) → Lacks (λ c. c == b'/') (volume_kerberos_cache_name s)
unfolding volume_kerberos_cache_name
volume_kerberos_cache_name-slash s =
    replace_byte-Lacks b'+' b'_' (λ c. c == b'/') (replace_byte b'/' b'-' (encode s)) refl
      (replace_byte-gone b'/' b'-' (encode s) refl)

-- Two volume ids, texts of bytes, with the same cache name are the same, and the name holds no slash.
pub volume_kerberos_cache_name-injective :
    (s t : Text)
    → All IsByte s
    → All IsByte t
    → volume_kerberos_cache_name s ≡ volume_kerberos_cache_name t
    → (s ≡ t) × Lacks (λ c. c == b'/') (volume_kerberos_cache_name s)
volume_kerberos_cache_name-injective s t hs ht e =
    let same = sym (restore-name s) ∙ ap restore e ∙ restore-name t in
    let decoded = sym (decode-encode s hs) ∙ ap decode same ∙ decode-encode t ht in
    (cc, volume_kerberos_cache_name-slash s)
