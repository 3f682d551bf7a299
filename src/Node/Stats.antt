-- ===== src/Node/Stats.antt =====
-- NodeGetVolumeStats of nodeserver.go.
pub mod Measured
pub mod Origin
use csi_driver_smb.Base.{
  ◌≡◌, refl, Bool, true, false, not, Option, none, some, List, [], ◌∷◌, is_empty,
}
use csi_driver_smb.Base.Int.{ℤ}
use csi_driver_smb.Text.{Text}
use csi_driver_smb.Result.{
  Status, Result, ok, err, status, invalid_argument, internal, not_found, volume_id_missing,
  target_missing, cache_failed, path_not_found, stat_failed, metrics_failed,
}
use csi_driver_smb.Exec.{pure, raise, lift, ◌>>=◌, ◌>>◌, check, check_none}
use csi_driver_smb.Node.Stats.Measured.{stats_of}
use csi_driver_smb.World.{
  OsError, not_exist, exist, corrupted, end_of_file, other, lstat, get_metrics, stats_cache_get,
  stats_cache_set, Metrics, Usage, VolumeStats, Env, World, Run, note, perform, perform_metrics,
  perform_stats,
}

pub record StatsRequest : Type 0 where
  pub volume_id : Text
  pub volume_path : Text

check_path : Option OsError → Run Status (Unit {0})
check_path none = pure tt
check_path (some not_exist) = raise (status not_found path_not_found)
check_path (some exist) = raise (status internal stat_failed)
check_path (some corrupted) = raise (status internal stat_failed)
check_path (some end_of_file) = raise (status internal stat_failed)
check_path (some other) = raise (status internal stat_failed)

module _ (env : Env) where
  measure : StatsRequest → Run Status VolumeStats
  unfolding check_path
  measure req = do
    found ← perform env (lstat req.volume_path)
    check_path found
    m ← perform_metrics env (get_metrics req.volume_path)
    check_none m.0 (status internal metrics_failed)
    stats ← lift (stats_of m.1)
    perform env (stats_cache_set req.volume_id)
    pure stats

  cached_or_measured : StatsRequest → Option VolumeStats → Run Status VolumeStats
  unfolding measure
  cached_or_measured req (some stats) = pure stats
  cached_or_measured req none = measure req

  unfoldable pub node_get_volume_stats : StatsRequest → Run Status VolumeStats
  unfolding cached_or_measured
  node_get_volume_stats req = do
    check (not (is_empty req.volume_id)) (status invalid_argument volume_id_missing)
    check (not (is_empty req.volume_path)) (status invalid_argument target_missing)
    cached ← perform_stats env (stats_cache_get req.volume_id)
    check_none cached.0 (status internal cache_failed)
    cached_or_measured req cached.1
