-- ===== src/Examples/World.antt =====
-- A world for runs: every call succeeds.
use csi_driver_smb.Base.{◌≢◌, refl, Bool, true, false, none, some, [], ◌∷◌}
use csi_driver_smb.Base.Int.{pos}
use csi_driver_smb.Text.{codes, text_eq, cut, split_by, split}
use csi_driver_smb.Dict.{Dict}
use csi_driver_smb.World.{Call, is_likely_not_mount_point, Metrics, Wait, Env}
use csi_driver_smb.Config.{Config}
use csi_driver_smb.FilePath.Elements.{NoDots}
use csi_driver_smb.Node.Context.{mounted, VolumeCapability}
use csi_driver_smb.Node.Stage.{StageRequest}
use csi_driver_smb.Controller.Create.{CreateRequest}
use csi_driver_smb.Controller.Delete.{DeleteRequest}

-- nothing is mounted yet, and no deletion is in the cache
abbrev flag_of : Call → Bool
flag_of (is_likely_not_mount_point _) = true
flag_of _ = false

abbrev example_metrics : Metrics
example_metrics = record {
  available = some (pos 1);
  capacity = some (pos 3);
  used = some (pos 2);
  inodes_free = some (pos 0);
  inodes = some (pos 0);
  inodes_used = some (pos 0);
}

abbrev pub quiet : Wait → Env
quiet wait = record {
  error = λ tr c. none;
  flag = λ tr c. flag_of c;
  text = λ tr c. [];
  texts = λ tr c. [];
  dict = λ tr c. [];
  wait = λ tr c. wait;
  metrics = λ tr c. example_metrics;
  cached_stats = λ tr c. none;
  visit = λ m. m;
}

abbrev pub linux : Config
linux = record {
  windows = false;
  working_mount_dir = codes "/tmp";
  krb5_cache_directory = codes "/var/lib/kubelet/kerberos/";
  krb5_prefix = codes "krb5cc_";
  default_on_delete_policy = [];
  remove_archived_volume_path = true;
  kube_client = true;
}

pub tmp_given : linux.working_mount_dir ≢ []
tmp_given = λ e. cc

pub tmp_clear : NoDots linux.working_mount_dir
unfolding split split_by cut text_eq
tmp_clear = (refl, (refl, tt))

abbrev pub secrets : Dict
secrets = (codes "username", codes "u") ∷ (codes "password", codes "p") ∷ []

abbrev pub delete_request : DeleteRequest
delete_request = record { volume_id = codes "server/share#data#pv1#"; secrets = secrets }

abbrev pub plain_mount : VolumeCapability
plain_mount = record {
  access_type = mounted (record { mount_flags = []; volume_mount_group = [] });
  access_mode = none;
}

abbrev pub stage_request : StageRequest
stage_request = record {
  volume_id = codes "server/share#data#pv1#";
  capability = some plain_mount;
  staging_target_path = codes "/mnt/pv1";
  volume_context = (codes "source", codes "//server/share") ∷ [];
  secrets = secrets;
}

abbrev pub create_request : CreateRequest
create_request = record {
  name = codes "pv1";
  capabilities = plain_mount ∷ [];
  required_bytes = pos 0;
  parameters = (codes "source", codes "//server/share") ∷ (codes "subDir", codes "/data/") ∷ [];
  secrets = secrets;
  content_source = none;
}
