-- ===== src/Text/Trim.antt =====
-- `Trim` removes separators at both ends, so the fields between separators stay.
use csi_driver_smb.Base.{
  ℕ, ◌≡◌, refl, Bool, true, false, [], ◌∷◌, arith, ==_iff, ◌&&◌, ◌==◌, inl, inr, ◌∙◌, Bool-cases,
  is_empty,
}
use csi_driver_smb.Text.Parts.{Lacks}
use csi_driver_smb.Text.Defs.{
  Text, cut, split_by, drop_empty, fields_func, trim_left_by, trim_right_by, trim_right, trim,
  has_prefix,
}

module _ (p q : ℕ → Bool) (within : (c : ℕ) → q c ≡ true → p c ≡ true) where
  fields_func-trim_left_by : (s : Text) → fields_func (trim_left_by q s) p ≡ fields_func s p
  unfolding fields_func split_by cut drop_empty trim_left_by
  fields_func-trim_left_by [] = refl
  fields_func-trim_left_by (c ∷ s) = ground (arith, within c, fields_func-trim_left_by s)

  record SameFields (s t : Text) : Type 0 where
    head : (cut p s).0 ≡ (cut p t).0
    others : drop_empty (cut p s).1 ≡ drop_empty (cut p t).1

  trim_right_by-SameFields : (s : Text) → SameFields (trim_right_by q s) s
  unfolding cut drop_empty trim_right_by
  trim_right_by-SameFields [] = record { head = refl; others = refl }
  trim_right_by-SameFields (c ∷ s) = let ih = trim_right_by-SameFields s in ground (arith, within c)

  fields_func-trim_right_by : (s : Text) → fields_func (trim_right_by q s) p ≡ fields_func s p
  unfolding fields_func split_by drop_empty
  fields_func-trim_right_by s = ground (arith, trim_right_by-SameFields s)

-- Trimming a separator leaves the fields as they are.
pub fields_func-trim :
    (p : ℕ → Bool) (b : ℕ) → p b ≡ true → (s : Text) → fields_func (trim s b) p ≡ fields_func s p
unfolding trim trim_right
fields_func-trim p b h s =
    fields_func-trim_right_by p (λ c. c == b) within (trim_left_by (λ c. c == b) s)
    ∙ fields_func-trim_left_by p (λ c. c == b) within s
  where
    within : (c : ℕ) → (c == b) ≡ true → p c ≡ true
    within c e = rw ((==_iff c b).0 e) h

-- A text that does not begin with the byte.
abbrev NoLead : ℕ → Text → Type 0
NoLead b [] = Unit {0}
NoLead b (c ∷ s) = (c == b) ≡ false

trim_left_by-NoLead : (b : ℕ) (s : Text) → NoLead b (trim_left_by (λ c. c == b) s)
unfolding trim_left_by
trim_left_by-NoLead b [] = tt
trim_left_by-NoLead b (c ∷ s) = elim (Bool-cases (c == b)) [
  | inl e ↦ rw e (trim_left_by-NoLead b s)
  | inr e ↦ rw e e
]

trim_right_by-NoLead : (b : ℕ) (p : ℕ → Bool) (s : Text) → NoLead b s → NoLead b (trim_right_by p s)
unfolding trim_right_by
trim_right_by-NoLead b p [] h = tt
trim_right_by-NoLead b p (c ∷ s) h = elim (Bool-cases (p c && is_empty (trim_right_by p s))) [
  | inl e ↦ rw e tt
  | inr e ↦ rw e h
]

has_prefix-NoLead : (b : ℕ) (s p : Text) → NoLead b s → has_prefix s (b ∷ p) ≡ false
unfolding has_prefix
has_prefix-NoLead b [] p h = refl
has_prefix-NoLead b (c ∷ s) p h = rw h

-- A trimmed text does not begin with the trimmed byte.
pub has_prefix-trim : (b : ℕ) (s p : Text) → has_prefix (trim s b) (b ∷ p) ≡ false
unfolding trim trim_right
has_prefix-trim b s p =
    has_prefix-NoLead b (trim s b) p
      (trim_right_by-NoLead b (λ c. c == b) _ (trim_left_by-NoLead b s))

trim_left_by-Lacks : (p q : ℕ → Bool) (s : Text) → Lacks p s → Lacks p (trim_left_by q s)
unfolding trim_left_by
trim_left_by-Lacks p q [] h = tt
trim_left_by-Lacks p q (c ∷ s) (hc, hs) = elim (Bool-cases (q c)) [
  | inl e ↦ rw e (trim_left_by-Lacks p q s hs)
  | inr e ↦ rw e (hc, hs)
]

trim_right_by-Lacks : (p q : ℕ → Bool) (s : Text) → Lacks p s → Lacks p (trim_right_by q s)
unfolding trim_right_by
trim_right_by-Lacks p q [] h = tt
trim_right_by-Lacks p q (c ∷ s) (hc, hs) = elim (Bool-cases (q c && is_empty (trim_right_by q s))) [
  | inl e ↦ rw e tt
  | inr e ↦ rw e (hc, trim_right_by-Lacks p q s hs)
]

-- Trimming adds no byte.
pub trim-Lacks : (p : ℕ → Bool) (b : ℕ) (s : Text) → Lacks p s → Lacks p (trim s b)
unfolding trim trim_right
trim-Lacks p b s h = trim_right_by-Lacks p (λ c. c == b) _ (trim_left_by-Lacks p (λ c. c == b) s h)
