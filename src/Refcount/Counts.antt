-- ===== src/Refcount/Counts.antt =====
-- What the count says of the references.
use csi_driver_smb.Base.{
  ℕ, Option-cases, ◌≡◌, refl, sym, ◌∙◌, Bool, true, false, ◌&&◌, Bool-cases, inl, inr, Option, none,
  some, List, [], ◌∷◌, length, arith, if◌then◌else◌,
}
use csi_driver_smb.Base.Int.{ℤ, pos}
use csi_driver_smb.Text.{Text, text_eq}
use csi_driver_smb.Text.Search.{text_eq_iff, text_eq_refl}
use csi_driver_smb.Exec.{pure, raise, modify, ◌>>=◌}
use csi_driver_smb.World.{OsError}
use csi_driver_smb.Refcount.{
  Reference, References, Faults, has_reference, without, files_in, put, reference_dir, returned,
  remove_file, count_of, get_volume_id_references_count, get_md5, increment, decrement,
}

-- a call on the references of a mapping
pub data Step : Type 0 where
  incremented : Faults → Text → Text → Text → Step
  decremented : Faults → Text → Text → Step

is_none : Option OsError → Bool
is_none none = true
is_none (some _) = false

module _ (md5 : Text → Text) where
  -- the references after the calls, the last of which stands first
  unfoldable pub run : List Step → References
  run [] = []
  run (incremented x mapping remote volume ∷ ss) =
      (increment md5 x mapping remote volume (run ss)).1
  run (decremented x mapping volume ∷ ss) = (decrement md5 x mapping volume (run ss)).1

  names : Text → Text → Text → Text → Bool
  unfolding get_md5
  names mapping volume d f = text_eq (reference_dir mapping) d && text_eq (get_md5 md5 volume) f

  -- The last call on this file that reached it was one that created it.
  unfoldable pub referred : Text → Text → List Step → Bool
  unfolding names is_none
  referred d f [] = false
  referred d f (incremented x mapping remote volume ∷ ss) =
      let before = referred d f ss in
      if names mapping volume d f && (is_none x.mkdir_all && is_none x.create) then true else before
  referred d f (decremented x mapping volume ∷ ss) =
      let before = referred d f ss in
      if names mapping volume d f && (is_none x.mkdir_all && is_none x.remove)
      then false
      else before

pub has_reference-without :
    (d f e g : Text) (refs : References)
    → has_reference e g (without d f refs)
      ≡ (if text_eq d e && text_eq f g then false else has_reference e g refs)
unfolding has_reference without
has_reference-without d f e g [] = ground arith
has_reference-without d f e g (r ∷ refs) = ground (
  arith,
  text_eq_iff r.dir d,
  text_eq_iff r.dir e,
  text_eq_iff d e,
  text_eq_iff r.file f,
  text_eq_iff r.file g,
  text_eq_iff f g,
  has_reference-without d f e g refs,
)

pub has_reference-put :
    (d f body e g : Text) (refs : References)
    → has_reference e g (put d f body refs)
      ≡ (if text_eq d e && text_eq f g then true else has_reference e g refs)
unfolding has_reference put
has_reference-put d f body e g refs = ground (arith, has_reference-without d f e g refs)

files_in-has_reference :
    (d f : Text) (refs : References) → length (files_in d refs) ≡ 0 → has_reference d f refs ≡ false
unfolding files_in has_reference
files_in-has_reference d f [] h = refl
files_in-has_reference d f (r ∷ refs) h = ground (arith, files_in-has_reference d f refs)

has_reference-tail :
    (d f : Text) (r : Reference) (refs : References)
    → has_reference d f (r ∷ refs) ≡ false
    → has_reference d f refs ≡ false
unfolding has_reference
has_reference-tail d f r refs h = ground arith

files_in-unreferred :
    (d : Text) (refs : References)
    → ((f : Text) → has_reference d f refs ≡ false)
    → length (files_in d refs) ≡ 0
unfolding files_in has_reference
files_in-unreferred d [] h = refl
files_in-unreferred d (r ∷ refs) h =
    let tail = files_in-unreferred d refs (λ f. has_reference-tail d f r refs (h f)) in
    let first = h r.file in ground (arith, text_eq_refl r.file)

absent-has_reference :
    (d f e g : Text) (refs : References)
    → has_reference d f refs ≡ false
    → has_reference e g refs
      ≡ (if text_eq d e && text_eq f g then false else has_reference e g refs)
absent-has_reference d f e g refs h = elim (Bool-cases (text_eq d e && text_eq f g)) [
  | inl same ↦
      (let de : d ≡ e = (text_eq_iff d e).0 (ground arith) in
        let fg : f ≡ g = (text_eq_iff f g).0 (ground arith) in rw same cc)
  | inr other ↦ rw other refl
]

module _ (md5 : Text → Text) (x : Faults) (mapping volume d f : Text) (refs : References) where
  increment-referred :
      (remote : Text)
      → has_reference d f (increment md5 x mapping remote volume refs).1 ≡ (
          if names md5 mapping volume d f && (is_none x.mkdir_all && is_none x.create)
          then true
          else has_reference d f refs)
  unfolding increment names is_none returned ◌>>=◌ pure raise modify
  increment-referred remote = elim (Option-cases x.mkdir_all) [
    | inl e ↦ elim (Option-cases x.create) [
      | inl g ↦ elim (Option-cases x.write_string) [
        | inl i ↦ rw (e, g, i, has_reference-put, has_reference-put) (ground arith)
        | inr (_, i) ↦ rw (e, g, i, has_reference-put) (ground arith)
      ]
      | inr (_, g) ↦ rw (e, g) (ground arith)
    ]
    | inr (_, e) ↦ rw e (ground arith)
  ]

  decrement-referred : has_reference d f (decrement md5 x mapping volume refs).1 ≡ (
      if names md5 mapping volume d f && (is_none x.mkdir_all && is_none x.remove)
      then false
      else has_reference d f refs)
  unfolding decrement names is_none returned remove_file ◌>>=◌ pure raise
  decrement-referred = elim (Option-cases x.mkdir_all) [
    | inl e ↦ elim (Option-cases x.remove) [
      | inl g ↦
          elim (Bool-cases (has_reference (reference_dir mapping) (get_md5 md5 volume) refs)) [
            | inl i ↦ rw (e, g, i, has_reference-without) (ground arith)
            | inr i ↦
                rw (e, g, i)
                  (absent-has_reference (reference_dir mapping) (get_md5 md5 volume) d f refs i
                    ∙ ground arith)
          ]
      | inr (_, g) ↦ rw (e, g) (ground arith)
    ]
    | inr (_, e) ↦ rw e (ground arith)
  ]

  -- no call takes away a reference but the one that drops it
  pub increment-kept :
      (remote : Text)
      → has_reference d f refs ≡ true
      → has_reference d f (increment md5 x mapping remote volume refs).1 ≡ true
  unfolding names
  increment-kept remote h = increment-referred remote ∙ rw h (ground arith)

  pub decrement-kept :
      text_eq (get_md5 md5 volume) f ≡ false
      → has_reference d f refs ≡ true
      → has_reference d f (decrement md5 x mapping volume refs).1 ≡ true
  unfolding names
  decrement-kept other h = decrement-referred ∙ rw (h, other) (ground arith)

pos-injective : {a b : ℕ} → Path ℤ (pos a) (pos b) → a ≡ b
pos-injective h = cc

count_of-zero : (a b : Option OsError) (n : ℕ) → count_of a b n ≡ pos 0 → n ≡ 0
unfolding count_of
count_of-zero none none n h = pos-injective h
count_of-zero none (some _) n h = cc
count_of-zero (some _) _ n h = cc

pub has_reference-get_volume_id_references_count :
    (x : Faults) (mapping f : Text) (refs : References)
    → get_volume_id_references_count x mapping refs ≡ pos 0
    → has_reference (reference_dir mapping) f refs ≡ false
unfolding get_volume_id_references_count
has_reference-get_volume_id_references_count x mapping f refs h =
    files_in-has_reference (reference_dir mapping) f refs
      (count_of-zero x.mkdir_all x.read_dir (length (files_in (reference_dir mapping) refs)) h)

module _ (md5 : Text → Text) where
  has_reference-run :
      (d f : Text) (ss : List Step) → has_reference d f (run md5 ss) ≡ referred md5 d f ss
  unfolding run referred has_reference
  has_reference-run d f [] = refl
  has_reference-run d f (incremented x mapping remote volume ∷ ss) =
      rw (increment-referred, has_reference-run d f ss) refl
  has_reference-run d f (decremented x mapping volume ∷ ss) =
      rw (decrement-referred, has_reference-run d f ss) refl

  -- If the count of a mapping is 0 after any calls, of which any may have failed half-way, then no
  -- volume still has a reference there: for no volume the last call that reached its file made it.
  pub get_volume_id_references_count-unreferred :
      (x : Faults) (ss : List Step) (mapping volume : Text)
      → get_volume_id_references_count x mapping (run md5 ss) ≡ pos 0
      → referred md5 (reference_dir mapping) (get_md5 md5 volume) ss ≡ false
  get_volume_id_references_count-unreferred x ss mapping volume h =
      sym (has_reference-run (reference_dir mapping) (get_md5 md5 volume) ss)
      ∙ has_reference-get_volume_id_references_count x mapping (get_md5 md5 volume) (run md5 ss) h

  -- Once for each file of a mapping the last call that reached it removed it, or none reached it, the
  -- count of the mapping is 0, if the directory can be read.
  pub unreferred-get_volume_id_references_count :
      (x : Faults) (ss : List Step) (mapping : Text)
      → x.mkdir_all ≡ none
      → x.read_dir ≡ none
      → ((f : Text) → referred md5 (reference_dir mapping) f ss ≡ false)
      → get_volume_id_references_count x mapping (run md5 ss) ≡ pos 0
  unfolding get_volume_id_references_count count_of
  unreferred-get_volume_id_references_count x ss mapping hm hr h =
      let empty =
        files_in-unreferred (reference_dir mapping) (run md5 ss)
          (λ f. has_reference-run (reference_dir mapping) f ss ∙ h f) in
      rw (hm, hr, empty) refl
