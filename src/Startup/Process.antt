-- ===== src/Startup/Process.antt =====
-- Run of pkg/smb/smb.go, NewSafeMounter of pkg/mounter, and the command.
use csi_driver_smb.Base.{Option, ℕ, Bool, not, ◌&&◌, List, [], ◌∷◌, if◌then◌else◌}
use csi_driver_smb.Text.{Text}
use csi_driver_smb.Result.{Result, ok, err, ◌>>=◌, ◌>>◌, require}
use csi_driver_smb.CsiCommon.{
  add_controller_service_capabilities, add_node_service_capabilities,
  add_volume_capability_access_modes,
}
use csi_driver_smb.Startup.Cluster.{Host}
use csi_driver_smb.Startup.{Fatal, Flags, driver_options, Driver, new_driver}
use csi_driver_smb.Startup.Server.{serve}
use csi_driver_smb.Startup.Metrics.{export_metrics}

-- the mounters of pkg/mounter, with k8s.io/mount-utils' own, which Linux uses
pub data SafeMounter : Type 0 where
  unix_mounter win_mounter csi_proxy_mounter_beta : SafeMounter
  -- with RemoveSMBMappingDuringUnmount
  csi_proxy_mounter : Bool → SafeMounter

-- the capabilities, numbered as in the CSI specification
abbrev pub controller_capabilities : List ℕ
controller_capabilities = 1 ∷ 13 ∷ 7 ∷ 9 ∷ []

abbrev pub access_modes : List ℕ
access_modes = 1 ∷ 2 ∷ 6 ∷ 7 ∷ 3 ∷ 4 ∷ 5 ∷ []

abbrev pub get_volume_stats_capability : ℕ
get_volume_stats_capability = 2

abbrev pub node_capabilities : Bool → List ℕ
node_capabilities enable_get_volume_stats =
    if enable_get_volume_stats then 1 ∷ 5 ∷ 6 ∷ get_volume_stats_capability ∷ [] else 1 ∷ 5 ∷ 6 ∷ []

-- what a running driver has
pub record Running : Type 0 where
  pub driver : Driver
  pub mounter : SafeMounter
  -- the network and the address that it listens on
  pub listener : Text × Text

-- how the command ends, or goes on
pub data Command : Type 0 where
  printed_version : Command
  -- with the address of the metrics, if they are served
  running : Option Text → Running → Command

module _ (h : Host) where
  unfoldable pub new_safe_mounter : Bool → Bool → Result Fatal SafeMounter
  new_safe_mounter enable_windows_host_process remove_smb_mapping =
      if not h.windows
      then ok unix_mounter
      else if enable_windows_host_process
      then ok win_mounter
      else if h.fs_client && h.smb_client
      then ok (csi_proxy_mounter remove_smb_mapping)
      else if h.fs_client_beta && h.smb_client_beta
      then ok csi_proxy_mounter_beta
      else err Fatal.no_mounter

  -- Run, up to the point where the server answers
  unfoldable pub run : Driver → Text → Result Fatal Running
  unfolding new_safe_mounter
  run d endpoint = do
    require h.version_yaml Fatal.no_version
    m ← new_safe_mounter d.enable_windows_host_process d.remove_smb_mapping_during_unmount
    let c = add_controller_service_capabilities d.csi controller_capabilities
    let v = (add_volume_capability_access_modes c access_modes).1
    let n = add_node_service_capabilities v (node_capabilities d.enable_get_volume_stats)
    address ← serve h endpoint
    ok (record { driver = record d { csi = n }; mounter = m; listener = address })

  -- `handle`
  unfoldable pub handle : Text → Flags → Result Fatal Running
  unfolding run
  handle version f = do d ← new_driver h version (driver_options f); run d f.endpoint

  -- The metrics are served on the side, before the driver is made.
  unfoldable pub main : Text → Flags → Result Fatal Command
  unfolding handle export_metrics
  main version f =
      if f.ver
      then (do require h.version_yaml Fatal.no_version; ok printed_version)
      else (do r ← handle version f; ok (running (export_metrics h f.metrics_address) r))
