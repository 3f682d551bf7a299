-- ===== src/Node/Mounter.antt =====
-- ensureMountPoint and makeDir of nodeserver.go, IsCorruptedDir of smb.go, and Mount, the cleaning
-- and the preparing of smb_common_linux.go and smb_common_windows.go.
pub mod Kept
pub mod Ready
pub mod Shown
use csi_driver_smb.Base.{
  Bool, true, false, ◌&&◌, ◌||◌, Option, none, some, List, [], ◌∷◌, ◌++◌, if◌then◌else◌, any,
}
use csi_driver_smb.Text.{Text, codes, text_eq}
use csi_driver_smb.Exec.{pure, raise, ◌>>=◌, ◌>>◌, finally}
use csi_driver_smb.Options.{needs_credentials_option}
use csi_driver_smb.World.{
  OsError, not_exist, exist, corrupted, end_of_file, Call, is_likely_not_mount_point, list_mounts,
  abs_path, open_dir, read_dir_first, unmount, mkdir_all, path_exists, create_temp, write,
  mount_sensitive, remove, smb_mount, smb_unmount, cleanup_mount_point, proxy_rmdir, proxy_exists,
  Env, Run, perform, perform_flag, perform_text, perform_texts, check_os,
}
use csi_driver_smb.Config.{Config}

module _ (env : Env) where
  corrupted_mount : Option OsError → Bool
  corrupted_mount (some corrupted) = true
  corrupted_mount _ = false

  unfoldable pub is_corrupted_dir : Text → Run OsError Bool
  unfolding corrupted_mount
  is_corrupted_dir dir = do e ← perform env (path_exists dir); pure (corrupted_mount e)

  -- what IsLikelyNotMountPoint said, `false` at a corrupted mount
  not_mount_point : Text → Option OsError × Bool → Run OsError Bool
  unfolding is_corrupted_dir
  not_mount_point target (none, b) = pure b
  not_mount_point target (some not_exist, b) = pure b
  not_mount_point target (some e, b) = do
    c ← is_corrupted_dir target
    if c then pure false else raise e

  -- all mount points are looked through, since the call above cannot see a bind mount
  not_listed : Bool → Text → Bool → Run OsError Bool
  not_listed true target not_mnt = pure not_mnt
  not_listed false target not_mnt = do
    listed ← perform_texts env list_mounts
    check_os listed.0
    target_abs ← perform_text env (abs_path target)
    check_os target_abs.0
    pure (if any (λ p. text_eq p target_abs.1) listed.1 then false else not_mnt)

  -- the end of an empty directory is no error
  read_error : Option OsError → Option OsError
  read_error (some end_of_file) = none
  read_error e = e

  read_after_open : Text → Option OsError → Run OsError (Option OsError)
  unfolding read_error
  read_after_open target none = do e ← perform env (read_dir_first target); pure (read_error e)
  read_after_open target (some e) = pure (some e)

  -- An invalid mount link is unmounted; the error by which it was found is returned all the same.
  unmount_invalid : Text → Option OsError → Run OsError Bool
  unmount_invalid target none = pure true
  unmount_invalid target (some e) = do u ← perform env (unmount target); check_os u; raise e

  created : Option OsError → Option OsError
  created (some exist) = none
  created e = e

  unfoldable pub make_dir : Text → Run OsError (Unit {0})
  unfolding created
  make_dir path = do e ← perform env (mkdir_all path); check_os (created e)

  mounted_or_made : Text → Bool → Run OsError Bool
  unfolding read_after_open unmount_invalid make_dir
  mounted_or_made target false = do
    opened ← perform env (open_dir target)
    e ← read_after_open target opened
    unmount_invalid target e
  mounted_or_made target true = do make_dir target; pure false

  -- Whether the target is a mount point already; if not, the directory is made.
  unfoldable pub ensure_mount_point : Bool → Text → Run OsError Bool
  unfolding not_mount_point not_listed mounted_or_made
  ensure_mount_point windows target = do
    likely ← perform_flag env (is_likely_not_mount_point target)
    not_mnt ← not_mount_point target likely
    not_mnt' ← not_listed windows target not_mnt
    mounted_or_made target not_mnt'

  write_line : Text → Text → Run OsError (Unit {0})
  write_line file o = do e ← perform env (write file (o ++ codes "\n")); check_os e

  pub write_lines : Text → List Text → Run OsError (Unit {0})
  unfolding write_line
  write_lines file [] = pure tt
  write_lines file (o ∷ options) = write_line file o >> write_lines file options

  abbrev with_credentials :
      Text → Text → Text → List Text → List Text → Text → Run OsError (Unit {0})
  with_credentials source target fs_type options sensitive file = do
    write_lines file sensitive
    e ←
        perform env
          (mount_sensitive source target fs_type options ((codes "credentials=" ++ file) ∷ []))
    check_os e

  -- Mount on Linux: a password that needs it goes through a file, which is removed afterwards.
  mount_linux : Text → Text → Text → List Text → List Text → Run OsError (Unit {0})
  unfolding write_lines
  mount_linux source target fs_type options sensitive =
      if needs_credentials_option sensitive
      then (do
        file ← perform_text env (create_temp (codes "/tmp/") (codes "*.smb.credentials"))
        check_os file.0
        finally (with_credentials source target fs_type options sensitive file.1)
            (perform env {E = OsError} (remove file.1)))
      else (do
        e ← perform env (mount_sensitive source target fs_type options sensitive)
        check_os e)

  -- Mount
  unfoldable pub mount_volume :
      Bool → Text → Text → Text → List Text → List Text → Text → Run OsError (Unit {0})
  unfolding mount_linux
  mount_volume true source target fs_type options sensitive volume_id = do
    e ← perform env (smb_mount source target fs_type options sensitive volume_id)
    check_os e
  mount_volume false source target fs_type options sensitive volume_id =
      mount_linux source target fs_type options sensitive

  unfoldable pub cleanup_smb_mount_point : Bool → Text → Text → Run OsError (Unit {0})
  cleanup_smb_mount_point windows target volume_id = do
    e ← perform env (if windows then smb_unmount target volume_id else cleanup_mount_point target)
    check_os e

  -- CleanupMountPoint
  unfoldable pub cleanup_publish_point : Bool → Text → Run OsError (Unit {0})
  cleanup_publish_point windows target = do
    e ← perform env (if windows then proxy_rmdir target else cleanup_mount_point target)
    check_os e

  remove_dir : Text → Run OsError (Unit {0})
  remove_dir path = do
    found ← perform_flag env (proxy_exists path)
    check_os found.0
    let remove_it = (do e ← perform env (proxy_rmdir path); check_os e)
    if found.1 then remove_it else pure tt

  -- preparePublishPath and prepareStagePath, which are the same on each system
  unfoldable pub prepare_path : Bool → Text → Run OsError (Unit {0})
  unfolding remove_dir
  prepare_path true path = remove_dir path
  prepare_path false path = pure tt
