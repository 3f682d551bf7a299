-- ===== src/HostProcess.antt =====
-- The mounter of a host process on Windows: pkg/mounter/safe_mounter_host_process_windows.go, over
-- HostProcess/Files and HostProcess/Mappings.
pub mod Calls
pub mod Files
pub mod Mappings
pub mod Sharing
pub mod Removal
pub mod Mapped
pub mod Mounted
use csi_driver_smb.Base.{
  Bool, true, false, not, ◌||◌, Option, none, some, List, [], ◌∷◌, if◌then◌else◌, is_empty,
}
use csi_driver_smb.Text.{Text, codes, replace_byte}
use csi_driver_smb.FilePath.{slash}
use csi_driver_smb.FilePath.OnWindows.{backslash, dir_on_drive}
use csi_driver_smb.Result.{Result, ok, err}
use csi_driver_smb.Exec.{pure, raise, ◌>>=◌, ◌>>◌, check, attempt}
use csi_driver_smb.World.{OsError, not_exist, other}
use csi_driver_smb.CsiProxy.{normalize_windows_path, first_option}
use csi_driver_smb.HostProcess.Calls.{Machine, Machined, symlink, mkdir_all, ask, tried}
use csi_driver_smb.HostProcess.Files.{path_exists, path_valid, rmdir, valid_path}
use csi_driver_smb.HostProcess.Files
use csi_driver_smb.HostProcess.Mappings.{
  is_smb_mapped, new_smb_global_mapping, remove_smb_global_mapping, get_remote_server_from_target,
  check_for_duplicate_smb_mounts,
}

abbrev pub driver_global_mount_path : Text
driver_global_mount_path =
    codes "C:\\var\\lib\\kubelet\\plugins\\kubernetes.io\\csi\\smb.csi.k8s.io"

module _ (a : Machine) where
  unfoldable pub exists_path : Text → Machined Bool
  exists_path path = path_exists a (normalize_windows_path path)

  unfoldable pub make_dir : Text → Machined (Unit {0})
  make_dir path = ask a (mkdir_all (normalize_windows_path path))

  unfoldable pub remove_dir : Text → Machined (Unit {0})
  remove_dir path = rmdir a (normalize_windows_path path) true

  -- Mount makes a link.
  unfoldable pub link : Text → Text → Machined (Unit {0})
  link source target =
      ask a (symlink (normalize_windows_path source) (normalize_windows_path target))

  -- for a missing path the error is ErrNotExist
  unfoldable pub is_likely_not_mount_point : Text → Machined Bool
  unfolding exists_path
  is_likely_not_mount_point path = do
    found ← exists_path path
    check found not_exist
    linked ← Files.is_mount_point a (normalize_windows_path path)
    pure (not linked)

  unfoldable pub is_mount_point : Text → Machined Bool
  is_mount_point file = do not_mounted ← is_likely_not_mount_point file; pure (not not_mounted)

  -- a mapping that is not valid is removed; the answer is whether one is left
  still_mapped : Text → Bool → Machined Bool
  still_mapped remote_path false = pure false
  still_mapped remote_path true = do
    valid ← tried false (path_valid a remote_path)
    if valid then pure true else (do remove_smb_global_mapping a remote_path; pure false)

  pub map_and_link : Text → Text → Text → Text → Machined (Unit {0})
  unfolding still_mapped
  map_and_link remote_path local_path username password = do
    mapped ← tried false (is_smb_mapped a remote_path)
    left ← still_mapped remote_path mapped
    if left then pure tt else new_smb_global_mapping a remote_path username password
    if is_empty local_path
        then pure tt
        else (do valid_path local_path; ask a (symlink remote_path local_path))

  unfoldable pub smb_mount : Text → Text → List Text → List Text → Machined (Unit {0})
  unfolding map_and_link exists_path make_dir
  smb_mount source target mount_options sensitive_mount_options = do
    check (not (is_empty mount_options || is_empty sensitive_mount_options)) other
    let parent_dir = dir_on_drive target
    parent_exists ← exists_path parent_dir
    if parent_exists then pure tt else make_dir parent_dir
    let remote_path = replace_byte slash backslash source
    check (not (is_empty remote_path)) other
    map_and_link remote_path (normalize_windows_path target) (first_option mount_options)
        (first_option sensitive_mount_options)

  -- a mapping that no other mount uses is removed; errors on the way are logged only
  pub remove_unshared : Text → Result OsError Text → Machined (Unit {0})
  remove_unshared target (err _) = pure tt
  remove_unshared target (ok remote_server) = do
    shared ←
        tried true (check_for_duplicate_smb_mounts a driver_global_mount_path target remote_server)
    if shared then pure tt else tried tt (remove_smb_global_mapping a remote_server)

  unfoldable pub smb_unmount : Text → Machined (Unit {0})
  unfolding remove_unshared remove_dir
  smb_unmount path = do
    let target = normalize_windows_path path
    λ calls.
        let (remote_server, calls') = get_remote_server_from_target a target calls in
        (do remove_unshared target remote_server; remove_dir target) calls'
