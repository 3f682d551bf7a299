-- ===== src/Config.antt =====
-- The fields of `Driver` in pkg/smb/smb.go that stay as NewDriver set them, with the target of the
-- build.
use csi_driver_smb.Base.{Bool}
use csi_driver_smb.Text.{Text}

pub record Config : Type 0 where
  -- runtime.GOOS == "windows"
  pub windows : Bool
  pub working_mount_dir : Text
  pub krb5_cache_directory : Text
  pub krb5_prefix : Text
  pub default_on_delete_policy : Text
  pub remove_archived_volume_path : Bool
  -- kubeClient != nil
  pub kube_client : Bool
