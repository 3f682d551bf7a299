-- ===== src/Node/Stats/Measured.antt =====
-- The answer of NodeGetVolumeStats in nodeserver.go, made of the metrics of a path.
use csi_driver_smb.Base.{Option, none, some}
use csi_driver_smb.Base.Int.{ℤ}
use csi_driver_smb.Result.{Status, Result, ok, err, status, internal, transform_failed, ◌>>=◌}
use csi_driver_smb.World.{Metrics, VolumeStats}

transformed : Option ℤ → Result Status ℤ
transformed none = err (status internal transform_failed)
transformed (some n) = ok n

-- the answer that metrics make, if every quantity is an int64
unfoldable pub stats_of : Metrics → Result Status VolumeStats
unfolding transformed
stats_of m = do
  available ← transformed m.available
  capacity ← transformed m.capacity
  used ← transformed m.used
  inodes_free ← transformed m.inodes_free
  inodes ← transformed m.inodes
  inodes_used ← transformed m.inodes_used
  ok (record {
    bytes = record { available = available; total = capacity; used = used };
    inodes = record { available = inodes_free; total = inodes; used = inodes_used };
  })
