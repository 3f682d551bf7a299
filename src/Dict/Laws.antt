-- ===== src/Dict/Laws.antt =====
-- Laws of map reads and writes.
use csi_driver_smb.Base.{
  ◌≡◌, ◌⊎◌, refl, sym, ◌∙◌, ap, true, false, any, Bool-cases, Option-cases, inl, inr, Option, none,
  some, [], ◌∷◌, if◌then◌else◌, arith,
}
use csi_driver_smb.Text.{Text, text_eq, to_lower, equal_fold}
use csi_driver_smb.Text.Search.{text_eq_refl, text_eq_iff}
use csi_driver_smb.Dict.{Dict, Visit, lookup, insert, find_fold, set_key_value_in_map}

pub lookup-insert :
    (k j : Text) (v : Text) (m : Dict)
    → lookup j (insert k v m) ≡ (if text_eq k j then some v else lookup j m)
unfolding lookup insert
lookup-insert k j v [] = refl
lookup-insert k j v ((i, w) ∷ m) =
    ground (arith, text_eq_iff k j, text_eq_iff i k, text_eq_iff i j, lookup-insert k j v m)

some-injective : {A : Type 0} {a b : A} → Path (Option A) (some a) (some b) → a ≡ b
some-injective h = cc

equal_fold_refl : (s : Text) → equal_fold s s ≡ true
unfolding equal_fold
equal_fold_refl s = text_eq_refl (to_lower s)

find_fold-equal_fold :
    (key : Text) (m : Dict) (k : Text) → find_fold key m ≡ some k → equal_fold k key ≡ true
unfolding find_fold
find_fold-equal_fold key [] k h = cc
find_fold-equal_fold key ((j, v) ∷ m) k h = elim (Bool-cases (equal_fold j key)) [
  | inl e ↦ (let h' : Path (Option Text) (some j) (some k) = rw e at h in cc)
  | inr e ↦ find_fold-equal_fold key m k (rw e at h)
]

find_fold-missing :
    (key : Text) (m : Dict) → find_fold key m ≡ none → any (λ e. equal_fold e.0 key) m ≡ false
unfolding find_fold
find_fold-missing key [] h = refl
find_fold-missing key ((j, v) ∷ m) h = elim (Bool-cases (equal_fold j key)) [
  | inl e ↦ (let h' : Path (Option Text) (some j) none = rw e at h in cc)
  | inr e ↦ rw e (find_fold-missing key m (rw e at h))
]

-- the key that is found is one of the map's
find_fold-present :
    (key : Text) (m : Dict) (k : Text)
    → find_fold key m ≡ some k
    → any (λ e. text_eq e.0 k) m ≡ true
unfolding find_fold
find_fold-present key [] k h = cc
find_fold-present key ((j, v) ∷ m) k h = elim (Bool-cases (equal_fold j key)) [
  | inl e ↦
      (let h' : Path (Option Text) (some j) (some k) = rw e at h in
        rw (some-injective h', text_eq_refl k) refl)
  | inr e ↦ ground (arith, find_fold-present key m k (rw e at h))
]

-- `m'` is `m` with the value written at one key that is `key` up to letter case: at a key that was
-- visited, if some such key is of that kind, and else at `key` itself.
pub record Written (visited : Dict) (key value : Text) (m m' : Dict) : Type 0 where
  pub at : Text
  pub similar : equal_fold at key ≡ true
  pub place :
      ((any (λ e. equal_fold e.0 key) visited ≡ false) × (at ≡ key))
      ⊎ (any (λ e. text_eq e.0 at) visited ≡ true)
  pub reads : (j : Text) → lookup j m' ≡ (if text_eq at j then some value else lookup j m)

-- SetKeyValueInMap on a map writes the value at one key and leaves every other key as it was. If some
-- key that it visits is the given one up to letter case, it writes at such a key, which it has visited;
-- otherwise it writes at the given key.
pub set_key_value_in_map-Written :
    (visit : Visit) (m m' : Dict) (key value : Text)
    → set_key_value_in_map visit (some m) key value ≡ some m'
    → Written (visit m) key value m m'
unfolding set_key_value_in_map
set_key_value_in_map-Written visit m m' key value h =
    elim (Option-cases (find_fold key (visit m))) [
      | inl e ↦
          (let h' : Path (Option Dict) (some (insert key value m)) (some m') = rw e at h in
            record {
              at = key;
              similar = equal_fold_refl key;
              place = inl (find_fold-missing key (visit m) e, refl);
              reads = λ j. ap (lookup j) (sym (some-injective h')) ∙ lookup-insert key j value m;
            })
      | inr (k, e) ↦
          (let h' : Path (Option Dict) (some (insert k value m)) (some m') = rw e at h in
            record {
              at = k;
              similar = find_fold-equal_fold key (visit m) k e;
              place = inr (find_fold-present key (visit m) k e);
              reads = λ j. ap (lookup j) (sym (some-injective h')) ∙ lookup-insert k j value m;
            })
    ]
