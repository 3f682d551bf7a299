-- ===== src/HostProcess/Files.antt =====
-- Paths on Windows that are looked up: pkg/os/filesystem/filesystem.go.
use csi_driver_smb.Base.{Bool, true, false, if◌then◌else◌}
use csi_driver_smb.Text.{Text, codes, has_prefix, to_lower}
use csi_driver_smb.Result.{Result, ok, err, Reason}
use csi_driver_smb.Exec.{pure, wrap, lift, ◌>>=◌, ◌>>◌}
use csi_driver_smb.World.{OsError, not_exist, exist, corrupted, end_of_file, other}
use csi_driver_smb.Windows.{validate_path_windows}
use csi_driver_smb.HostProcess.Calls.{
  Machine, Machined, lstat, read_link, remove_all, remove, test_path, ask, ask_text, ask_link,
}

unfoldable pub valid_path : Text → Machined (Unit {0})
valid_path path = wrap (λ (_ : Reason). other) (lift (validate_path_windows path))

found : Result OsError (Unit {0}) → Result OsError Bool
found (ok _) = ok true
found (err not_exist) = ok false
found (err exist) = err exist
found (err corrupted) = err corrupted
found (err end_of_file) = err end_of_file
found (err other) = err other

module _ (a : Machine) where
  -- pathExists
  unfoldable pub path_is_there : Text → Machined Bool
  unfolding found
  path_is_there path calls = let (r, calls') = ask a (lstat path) calls in (found r, calls')

  unfoldable pub path_exists : Text → Machined Bool
  path_exists path = do valid_path path; path_is_there path

  unfoldable pub path_valid : Text → Machined Bool
  path_valid path = do
    output ← ask_text a (test_path path)
    pure (has_prefix (to_lower output) (codes "true"))

  unfoldable pub rmdir : Text → Bool → Machined (Unit {0})
  rmdir path force = do
    valid_path path
    if force then ask a (remove_all path) else ask a (remove path)

  unfoldable pub is_symlink : Text → Machined Bool
  is_symlink target = do
    linked ← ask_link a (lstat target)
    if linked
        then (do destination ← ask_text a (read_link target); path_is_there destination)
        else pure false

  unfoldable pub is_mount_point : Text → Machined Bool
  is_mount_point path = is_symlink path
