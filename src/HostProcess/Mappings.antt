-- ===== src/HostProcess/Mappings.antt =====
-- SMB mappings by PowerShell, and the links that use them: pkg/os/smb/smb.go.
use csi_driver_smb.Base.{Bool, true, false, not, ◌&&◌, List, [], ◌∷◌, is_empty, if◌then◌else◌}
use csi_driver_smb.Text.{Text, codes, text_eq, equal_fold, trim_space}
use csi_driver_smb.FilePath.OnWindows.{clean_on_drive, join_on_drive}
use csi_driver_smb.Exec.{pure, check, ◌>>=◌, ◌>>◌}
use csi_driver_smb.World.{other}
use csi_driver_smb.Refcount.{trim_backslash}
use csi_driver_smb.HostProcess.Calls.{
  lstat, read_link, read_dir, get_mapping, remove_mapping, new_mapping, DirEntry, Machine, Machined,
  ask, ask_text, ask_link, ask_entries, tried,
}

unfoldable pub global_mount_path : Text → DirEntry → Text
global_mount_path dir file = join_on_drive (join_on_drive dir file.name) (codes "globalmount")

module _ (a : Machine) where
  unfoldable pub is_smb_mapped : Text → Machined Bool
  is_smb_mapped remote_path = do
    out ← ask_text a (get_mapping remote_path)
    pure (not (is_empty out) && equal_fold (trim_space out) (codes "OK"))

  unfoldable pub new_smb_global_mapping : Text → Text → Text → Machined (Unit {0})
  new_smb_global_mapping remote_path username password =
      ask a (new_mapping remote_path username password)

  unfoldable pub remove_smb_global_mapping : Text → Machined (Unit {0})
  remove_smb_global_mapping remote_path = ask a (remove_mapping (trim_backslash remote_path))

  unfoldable pub get_remote_server_from_target : Text → Machined Text
  get_remote_server_from_target mount = do
    target ← ask_text a (read_link mount)
    check (not (is_empty target)) other
    pure (trim_space target)

  -- whether the link at this path points to the remote server
  unfoldable pub links_to : Text → Text → Machined Bool
  links_to path remote_server = do
    linked ← tried false (ask_link a (lstat path))
    if linked
        then tried false
            (do server ← get_remote_server_from_target path; pure (text_eq server remote_server))
        else pure false

  -- whether an entry of the directory is another mount of the remote server
  unfoldable pub duplicates : Text → Text → Text → DirEntry → Machined Bool
  unfolding links_to
  duplicates dir mount remote_server file =
      if file.is_dir
      then if equal_fold (clean_on_drive (global_mount_path dir file)) (clean_on_drive mount)
        then pure false
        else links_to (global_mount_path dir file) remote_server
      else pure false

  unfoldable pub any_duplicates : Text → Text → Text → List DirEntry → Machined Bool
  any_duplicates dir mount remote_server [] = pure false
  any_duplicates dir mount remote_server (file ∷ files) = do
    duplicate ← duplicates dir mount remote_server file
    if duplicate then pure true else any_duplicates dir mount remote_server files

  unfoldable pub check_for_duplicate_smb_mounts : Text → Text → Text → Machined Bool
  check_for_duplicate_smb_mounts dir mount remote_server = do
    files ← ask_entries a (read_dir dir)
    any_duplicates dir mount remote_server files
