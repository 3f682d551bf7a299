-- ===== src/Examples/Requests.antt =====
-- The other requests, and paths on Windows, on concrete inputs.
use csi_driver_smb.Base.{none, ◌⊎◌, ap, ◌≡◌, refl, [], ◌∷◌}
use csi_driver_smb.Base.Int.{pos}
use csi_driver_smb.Text.{Text, codes}
use csi_driver_smb.Result.{ok}
use csi_driver_smb.World.{done, get_metrics, stats_cache_get, Usage, VolumeStats}
use csi_driver_smb.Windows.{validate_path_windows}
use csi_driver_smb.Windows.Accepted.{IsWindowsPath, validate_path_windows-IsWindowsPath}
use csi_driver_smb.World.{stats_cache_get}
use csi_driver_smb.Node.Stats.{StatsRequest, node_get_volume_stats}
use csi_driver_smb.Node.Stats.Origin.{Cached, Measured, node_get_volume_stats-Measured}
use csi_driver_smb.Driver.{new_driver}
use csi_driver_smb.Examples.World.{quiet}

windows_valid : validate_path_windows (codes "c:\\mnt") ≡ ok tt
unfolding validate_path_windows csi_driver_smb.Text.contains
windows_valid = refl

validate_path_windows-IsWindowsPath_example : IsWindowsPath (codes "c:\\mnt")
validate_path_windows-IsWindowsPath_example =
    validate_path_windows-IsWindowsPath (codes "c:\\mnt") windows_valid

abbrev stats_request : StatsRequest
stats_request = record { volume_id = codes "v"; volume_path = codes "/mnt" }

abbrev measured : VolumeStats
measured = record {
  bytes = record { available = pos 1; total = pos 3; used = pos 2 };
  inodes = record { available = pos 0; total = pos 0; used = pos 0 };
}

stats_answered : (node_get_volume_stats (quiet done) stats_request new_driver).0 ≡ ok measured
unfolding node_get_volume_stats csi_driver_smb.Exec.◌>>=◌ csi_driver_smb.Exec.check
    csi_driver_smb.World.perform_stats csi_driver_smb.Exec.check_none csi_driver_smb.World.perform
    csi_driver_smb.World.perform_metrics csi_driver_smb.Node.Stats.Measured.stats_of
stats_answered = refl

node_get_volume_stats-Measured_example :
    let w' = (node_get_volume_stats (quiet done) stats_request new_driver).1 in
    let get = stats_cache_get stats_request.volume_id in
    ((quiet done).error [] get ≡ none)
    × (Cached (quiet done) stats_request measured [] w'.trace
        ⊎ (((quiet done).cached_stats [] get ≡ none)
            × Measured (quiet done) stats_request measured (get ∷ []) w'.trace))
node_get_volume_stats-Measured_example =
    node_get_volume_stats-Measured (quiet done) stats_request new_driver
      (node_get_volume_stats (quiet done) stats_request new_driver).1 measured
      (ap (λ r. (r, (node_get_volume_stats (quiet done) stats_request new_driver).1))
        stats_answered)
