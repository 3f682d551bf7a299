-- ===== src/Windows/Accepted.antt =====
-- What ValidatePathWindows passes.
use csi_driver_smb.Base.{
  ℕ, ◌≡◌, ◌≤◌, refl, subst, Bool, true, false, ◌||◌, [], ◌∷◌, any, drop, length, if◌then◌else◌, ltb,
  arith,
}
use csi_driver_smb.Text.{Text, codes, contains}
use csi_driver_smb.Result.{Result, Reason, ok, err}
use csi_driver_smb.Windows.{
  max_path_length_windows, backslash, is_drive, is_invalid, is_abs_windows,
  contains_invalid_characters_windows, is_unc_path_windows, begins_with_backslash,
  validate_path_windows,
}

-- A drive and a path from its root, with no byte that Windows refuses and no two dots in a row.
pub record IsWindowsPath (path : Text) : Type 0 where
  pub drive : ℕ
  pub rest : Text
  pub spelled : path ≡ drive ∷ b':' ∷ backslash ∷ rest
  pub letter : is_drive drive ≡ true
  pub valid : any is_invalid rest ≡ false
  pub steady : contains rest (codes "..") ≡ false
  pub short : length path ≤ max_path_length_windows

false-true {ℓ} : {A : Type ℓ} → false ≡ true → A
false-true {A} h = subst (λ b. elim b as (λ _. Type ℓ) [ true ↦ A | false ↦ Unit ]) h tt

-- a test that refuses
passed :
    (b : Bool) (e : Reason) (r : Result Reason (Unit {0}))
    → (if b then err e else r) ≡ ok tt
    → (b ≡ false) × (r ≡ ok tt)
passed true e r h = cc
passed false e r h = (refl, h)

abs-spelled :
    (path : Text)
    → is_abs_windows path ≡ true
    → (d : ℕ) × (rest : Text) × (path ≡ d ∷ b':' ∷ backslash ∷ rest) × (is_drive d ≡ true)
unfolding is_abs_windows
abs-spelled [] abs = false-true abs
abs-spelled (_ ∷ []) abs = false-true abs
abs-spelled (_ ∷ _ ∷ []) abs = false-true abs
abs-spelled (d ∷ c ∷ b ∷ rest) abs =
    let ec : c ≡ b':' = ground arith in
    let eb : b ≡ backslash = ground arith in (d, rest, rw (ec, eb) refl, ground arith)

-- what stands behind the drive
clean-rest :
    (path : Text)
    → contains_invalid_characters_windows path ≡ false
    → is_abs_windows path ≡ true
    → (any is_invalid (drop 3 path) || contains (drop 3 path) (codes "..")) ≡ false
unfolding contains_invalid_characters_windows
clean-rest path valid abs = rw abs at valid

or-false : (a b : Bool) → (a || b) ≡ false → (a ≡ false) × (b ≡ false)
or-false a b h = (ground arith, ground arith)

abs-IsWindowsPath :
    (path : Text)
    → length path ≤ max_path_length_windows
    → contains_invalid_characters_windows path ≡ false
    → is_abs_windows path ≡ true
    → IsWindowsPath path
abs-IsWindowsPath path short valid abs =
    let (d, rest, e, letter) = abs-spelled path abs in
    let (v, s) =
      or-false (any is_invalid (drop 3 path)) (contains (drop 3 path) (codes ".."))
        (clean-rest path valid abs) in
    record {
      drive = d;
      rest = rest;
      spelled = e;
      letter = letter;
      valid = rw e at v;
      steady = rw e at s;
      short = short;
    }

-- Every path that passes is a drive, a colon, a backslash, and a rest with no refused byte and no two
-- dots in a row; and it is no longer than Windows allows.
pub validate_path_windows-IsWindowsPath :
    (path : Text) → validate_path_windows path ≡ ok tt → IsWindowsPath path
unfolding validate_path_windows
validate_path_windows-IsWindowsPath path h =
    let (short, h₁) = passed (ltb max_path_length_windows (length path)) _ _ h in
    let (_, h₂) = passed (begins_with_backslash path) _ _ h₁ in
    let (_, h₃) = passed (is_unc_path_windows path) _ _ h₂ in
    let (valid, h₄) = passed (contains_invalid_characters_windows path) _ _ h₃ in
    abs-IsWindowsPath path (ground arith) valid (ground arith)
