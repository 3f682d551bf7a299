-- ===== src/Text/Parts.antt =====
-- What `Split`, `Join` and `FieldsFunc` do together.
use csi_driver_smb.Base.{
  ℕ, Bool-cases, inl, inr, ◌≡◌, refl, Bool, true, false, List, [], ◌∷◌, ◌++◌, append-nil, arith,
  ◌==◌, All,
}
use csi_driver_smb.Text.Defs.{Text, cut, split_by, split, join}

-- no byte of the text is a separator
abbrev pub Lacks : (ℕ → Bool) → Text → Type 0
Lacks p = All (λ c. p c ≡ false)

module _ (p : ℕ → Bool) where
  cut-append :
      (s rest : Text) → Lacks p s → cut p (s ++ rest) ≡ (s ++ (cut p rest).0, (cut p rest).1)
  unfolding cut
  cut-append [] rest _ = refl
  cut-append (c ∷ s) rest (hc, hs) = rw (hc, cut-append s rest hs)

  cut-Lacks : (s : Text) → Lacks p s → cut p s ≡ (s, [])
  unfolding cut
  cut-Lacks [] _ = refl
  cut-Lacks (c ∷ s) (hc, hs) = rw (hc, cut-Lacks s hs)

  cut_at_sep : (c : ℕ) (s : Text) → p c ≡ true → cut p (c ∷ s) ≡ ([], split_by p s)
  unfolding cut split_by
  cut_at_sep c s h = rw h

  pub split_by-Lacks : (s : Text) → Lacks p s → split_by p s ≡ s ∷ []
  unfolding split_by
  split_by-Lacks s h = rw (cut-Lacks s h)

  pub split_by-append :
      (s : Text) (c : ℕ) (rest : Text)
      → Lacks p s
      → p c ≡ true
      → split_by p (s ++ c ∷ rest) ≡ s ∷ split_by p rest
  unfolding split_by
  split_by-append s c rest hs hc = rw (cut-append s (c ∷ rest) hs, cut_at_sep c rest hc, append-nil)

  cut-append_sep :
      (s : Text) (c : ℕ) (rest : Text)
      → p c ≡ true
      → cut p (s ++ c ∷ rest) ≡ ((cut p s).0, (cut p s).1 ++ split_by p rest)
  unfolding cut split_by
  cut-append_sep [] c rest h = rw h
  cut-append_sep (b ∷ s) c rest h = rw (cut-append_sep s c rest h) (ground arith)

  -- A separator between two texts keeps the parts of both.
  pub split_by-append_sep :
      (s : Text) (c : ℕ) (rest : Text)
      → p c ≡ true
      → split_by p (s ++ c ∷ rest) ≡ split_by p s ++ split_by p rest
  unfolding split_by
  split_by-append_sep s c rest h = rw (cut-append_sep s c rest h)

  cut-All-Lacks : (s : Text) → Lacks p (cut p s).0 × All (Lacks p) (cut p s).1
  unfolding cut
  cut-All-Lacks [] = (tt, tt)
  cut-All-Lacks (c ∷ s) = elim (Bool-cases (p c)) [
    | inl e ↦ rw e (tt, cut-All-Lacks s)
    | inr e ↦ rw e ((e, (cut-All-Lacks s).0), (cut-All-Lacks s).1)
  ]

  -- No part holds a separator.
  pub split_by-All-Lacks : (s : Text) → All (Lacks p) (split_by p s)
  unfolding split_by
  split_by-All-Lacks s = cut-All-Lacks s

pub ==_refl : (n : ℕ) → (n == n) ≡ true
==_refl n = ground arith

-- Splitting a join gives the parts back, if there is a part and none holds the separator.
pub split-join :
    (sep : ℕ) (q : Text) (qs : List Text)
    → All (Lacks (λ c. c == sep)) (q ∷ qs)
    → split (join (q ∷ qs) sep) sep ≡ q ∷ qs
unfolding split join
split-join sep q [] (hq, _) = split_by-Lacks (λ c. c == sep) q hq
split-join sep q (r ∷ rs) (hq, hs) =
    rw (split_by-append (λ c. c == sep) q sep (join (r ∷ rs) sep) hq (==_refl sep))
      (rw (split-join sep r rs hs))
