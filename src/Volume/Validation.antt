-- ===== src/Volume/Validation.antt =====
-- What `validatePath` rules out.
use csi_driver_smb.Base.{
  ℕ, ◌≡◌, ◌↔◌, ◌⊎◌, refl, Bool, true, false, ◌||◌, ◌==◌, List, [], ◌∷◌, ◌++◌, arith, All,
  All-append, All-split, any, Bool-cases, inl, inr,
}
use csi_driver_smb.Result.{ok}
use csi_driver_smb.Text.{Text, codes, text_eq, cut, split_by, split, drop_empty, fields_func, trim}
use csi_driver_smb.Text.Parts.{Lacks, split_by-Lacks, split_by-append_sep}
use csi_driver_smb.Text.Trim.{fields_func-trim}
use csi_driver_smb.FilePath.{slash, dot_dot}
use csi_driver_smb.FilePath.Elements.{NoDots, is_slash}
use csi_driver_smb.Volume.Defs.{is_path_separator, validate_path}

-- the first part at the coarser cut
cut-head :
    (p q : ℕ → Bool)
    → ((c : ℕ) → q c ≡ true → p c ≡ true)
    → (s y : Text) → Lacks p y
    → text_eq (cut q s).0 y ≡ true
    → text_eq (cut p s).0 y ≡ true
unfolding cut text_eq
cut-head p q within [] y hy h = h
cut-head p q within (c ∷ s) [] hy h = ground (arith, within c)
cut-head p q within (c ∷ s) (b ∷ y) hy h = ground (arith, within c, cut-head p q within s y hy.1)

Avoids : Text → Text → Type 0
Avoids y e = text_eq e y ≡ false

cut-others :
    (p q : ℕ → Bool)
    → ((c : ℕ) → q c ≡ true → p c ≡ true)
    → (s y : Text) → Lacks p y
    → All (Avoids y) (cut p s).1
    → All (Avoids y) (cut q s).1
unfolding cut Avoids
cut-others p q within [] y hy h = tt
cut-others p q within (c ∷ s) y hy h =
    ground (arith, within c, cut-head p q within s y hy, cut-others p q within s y hy)

-- A finer cut finds every part that holds none of its separators.
split_by-refine :
    (p q : ℕ → Bool)
    → ((c : ℕ) → q c ≡ true → p c ≡ true)
    → (s y : Text) → Lacks p y
    → All (Avoids y) (split_by p s)
    → All (Avoids y) (split_by q s)
unfolding split_by Avoids
split_by-refine p q within s y hy (h, t) =
    (ground (arith, cut-head p q within s y hy), cut-others p q within s y hy t)

any-drop_empty :
    (ps : List Text)
    → any (λ s. text_eq s dot_dot) (drop_empty ps) ≡ false
    → All (Avoids dot_dot) ps
unfolding drop_empty Avoids text_eq
any-drop_empty [] h = tt
any-drop_empty ([] ∷ ps) h = (refl, any-drop_empty ps h)
any-drop_empty ((c ∷ p) ∷ ps) h = elim (Bool-cases (text_eq (c ∷ p) dot_dot)) [
  | inl e ↦ cc (rw e at h)
  | inr e ↦ (e, any-drop_empty ps (rw e at h))
]

slash-within : (c : ℕ) → is_slash c ≡ true → is_path_separator c ≡ true
slash-within c h = ground arith

-- A path that `validatePath` passes has no `..` among its elements.
pub validate_path-NoDots : (path : Text) → validate_path path ≡ ok tt → NoDots path
unfolding validate_path fields_func split Avoids
validate_path-NoDots path h =
    split_by-refine is_path_separator is_slash slash-within path dot_dot (refl, (refl, tt))
      (any-drop_empty (split_by is_path_separator path) (ground arith))

-- Slashes at the ends do not matter to `validatePath`.
pub validate_path-trim : (path : Text) → validate_path (trim path slash) ≡ validate_path path
unfolding validate_path
validate_path-trim path = rw (fields_func-trim is_path_separator slash refl path)

any-Avoids :
    (ps : List Text)
    → All (Avoids dot_dot) ps
    → any (λ s. text_eq s dot_dot) (drop_empty ps) ≡ false
unfolding drop_empty Avoids
any-Avoids [] h = refl
any-Avoids ([] ∷ ps) (_, hs) = any-Avoids ps hs
any-Avoids ((c ∷ p) ∷ ps) (h, hs) = rw h (any-Avoids ps hs)

validate_path_iff :
    (path : Text)
    → (validate_path path ≡ ok tt)
      ↔ All (λ part. text_eq part dot_dot ≡ false) (split_by is_path_separator path)
unfolding validate_path fields_func Avoids
validate_path_iff path = (
  λ h. any-drop_empty (split_by is_path_separator path) (ground arith),
  λ h. rw (any-Avoids (split_by is_path_separator path) h) refl,
)

-- `validatePath` passes a path that is joined by a slash or a backslash exactly when it passes both of
-- its parts; and a path that holds neither exactly when that is not `..`.
pub validate_path-append :
    (a b lone : Text) (c : ℕ)
    → (c ≡ b'/') ⊎ (c ≡ b'\\')
    → Lacks (λ r. r == b'/' || r == b'\\') lone
    → ((validate_path (a ++ c ∷ b) ≡ ok tt)
        ↔ ((validate_path a ≡ ok tt) × (validate_path b ≡ ok tt)))
      × ((validate_path lone ≡ ok tt) ↔ (text_eq lone (codes "..") ≡ false))
unfolding Avoids
validate_path-append a b lone c h clear =
    let parts = split_by-append_sep is_path_separator a c b (ground arith) in
    let parts_a = split_by is_path_separator a in
    let parts_b = split_by is_path_separator b in
    let whole = validate_path_iff (a ++ c ∷ b) in
    let one = validate_path_iff lone in
    let single = split_by-Lacks is_path_separator lone clear in
    (
      (
        λ e.
            let both = All-split (Avoids dot_dot) parts_a parts_b (rw parts at (whole.0 e)) in
            ((validate_path_iff a).1 both.0, (validate_path_iff b).1 both.1),
        λ e. whole.1 (
            rw parts (
              All-append _ parts_a parts_b ((validate_path_iff a).0 e.0)
                ((validate_path_iff b).0 e.1))),
      ),
      (λ e. (rw single at (one.0 e)).0, λ e. one.1 (rw single (e, tt))),
    )
