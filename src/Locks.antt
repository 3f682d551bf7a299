-- ===== src/Locks.antt =====
-- pkg/smb/volume_lock.go: the set of the volume ids with an operation going on. Its mutex makes each
-- operation one step.
pub mod Laws
use csi_driver_smb.Base.{Bool, true, false, List, [], ◌∷◌, if◌then◌else◌, any}
use csi_driver_smb.Text.{Text, text_eq}

abbrev pub VolumeLocks : Type 0
VolumeLocks = List Text

unfoldable pub has : VolumeLocks → Text → Bool
has locks k = any (λ j. text_eq j k) locks

abbrev insert : VolumeLocks → Text → VolumeLocks
insert locks k = k ∷ locks

unfoldable pub delete : VolumeLocks → Text → VolumeLocks
delete [] k = []
delete (j ∷ locks) k = let rest = delete locks k in if text_eq j k then rest else j ∷ rest

abbrev pub new_volume_locks : VolumeLocks
new_volume_locks = []

-- TryAcquire
unfoldable pub try_acquire : VolumeLocks → Text → Bool × VolumeLocks
unfolding has
try_acquire locks k = if has locks k then (false, locks) else (true, insert locks k)

-- Release
unfoldable pub release : VolumeLocks → Text → VolumeLocks
unfolding delete
release locks k = delete locks k
