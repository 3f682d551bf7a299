-- ===== src/Locks/Laws.antt =====
-- The set of locks as a predicate on keys.
use csi_driver_smb.Base.{◌≡◌, ◌∙◌, refl, true, false, ◌||◌, [], ◌∷◌, arith, if◌then◌else◌}
use csi_driver_smb.Text.{Text, text_eq}
use csi_driver_smb.Text.Search.{text_eq_iff, text_eq_refl}
use csi_driver_smb.Locks.{VolumeLocks, has, delete, try_acquire, release}

has_eq : (locks : VolumeLocks) (k j : Text) → text_eq k j ≡ true → has locks k ≡ has locks j
has_eq locks k j e = rw ((text_eq_iff k j).0 e)

-- After a successful TryAcquire exactly one more key is locked; a refused one changes nothing.
pub has-try_acquire :
    (locks : VolumeLocks) (k j : Text)
    → has (try_acquire locks k).1 j ≡ (text_eq k j || has locks j)
unfolding try_acquire has
has-try_acquire locks k j = ground (arith, has_eq locks k j)

pub has-release :
    (locks : VolumeLocks) (k j : Text)
    → has (release locks k) j ≡ (if text_eq k j then false else has locks j)
unfolding release has delete
has-release [] k j = ground arith
has-release (i ∷ locks) k j =
    ground (arith, text_eq_iff k j, text_eq_iff i k, text_eq_iff i j, has-release locks k j)

acquired : (locks : VolumeLocks) (k : Text) → has locks k ≡ false → (try_acquire locks k).0 ≡ true
unfolding try_acquire
acquired locks k free = rw free refl

taken : (locks : VolumeLocks) (k : Text) → has locks k ≡ true → try_acquire locks k ≡ (false, locks)
unfolding try_acquire
taken locks k h = rw h refl

-- A key that is free can be acquired, is refused to the next, and is free again after its release; no
-- other key is touched by this.
pub release-try_acquire :
    (locks : VolumeLocks) (k j : Text)
    → has locks k ≡ false
    → ((try_acquire locks k).0 ≡ true)
      × (try_acquire (try_acquire locks k).1 k ≡ (false, (try_acquire locks k).1))
      × (has (release (try_acquire locks k).1 k) j ≡ has locks j)
release-try_acquire locks k j free = (
  acquired locks k free,
  taken (try_acquire locks k).1 k (has-try_acquire locks k k ∙ rw (text_eq_refl k) refl),
  ground
      (arith, has-release (try_acquire locks k).1 k j, has-try_acquire locks k j, has_eq locks k j),
)
