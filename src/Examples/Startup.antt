-- ===== src/Examples/Startup.antt =====
-- A driver that is started with a policy for deletions.
use csi_driver_smb.Base.{◌≡◌, refl, true, false, ◌||◌, none, [], if◌then◌else◌}
use csi_driver_smb.Text.{Text, codes, equal_fold}
use csi_driver_smb.Names.{retain, archive}
use csi_driver_smb.Result.{Result, ok, err}
use csi_driver_smb.World.{OsError}
use csi_driver_smb.Volume.Defs.{SmbVolume}
use csi_driver_smb.Volume.Id.{kept_by_id}
use csi_driver_smb.Controller.Delete.{on_delete_policy}
use csi_driver_smb.Startup.Cluster.{Host}
use csi_driver_smb.Startup.{Fatal, Flags, default_flags}
use csi_driver_smb.Startup.Process.{Running, handle}
use csi_driver_smb.Startup.Flagged.{handle-ineffective}

abbrev host : Host
host = record {
  windows = false;
  getenv = λ name. [];
  read_file = λ file. err OsError.not_exist;
  remove = λ file. none;
  listens = λ network address. true;
  cert_pool = λ file. false;
  build_config = λ file. false;
  timed_cache = λ ttl. true;
  version_yaml = true;
  fs_client = false;
  smb_client = false;
  fs_client_beta = false;
  smb_client_beta = false;
}

abbrev value : Result Fatal Running → Running → Running
value (ok r) r' = r
value (err _) r' = r'

abbrev flags : Flags
flags = record default_flags { default_on_delete_policy = retain }

starts : (r : Running) × (handle host (codes "v1") flags ≡ ok r)
unfolding handle csi_driver_smb.Startup.new_driver csi_driver_smb.Startup.Server.serve
    csi_driver_smb.CsiCommon.parse_endpoint csi_driver_smb.Text.to_lower csi_driver_smb.Text.text_eq
starts = (_, refl)

handle-ineffective_example :
    (handle host
        (codes "v1")
        (record flags { default_on_delete_policy = []; kubeconfig = codes "/k" })
      ≡ ok starts.0)
    × ((vol : SmbVolume)
        → on_delete_policy starts.0.driver.config.default_on_delete_policy (kept_by_id vol) ≡ (
            if equal_fold vol.on_delete retain || equal_fold vol.on_delete archive
            then vol.on_delete
            else []))
handle-ineffective_example =
    handle-ineffective host (codes "v1") flags [] (codes "/k") starts.0 starts.1
