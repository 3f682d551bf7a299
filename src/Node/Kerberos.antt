-- ===== src/Node/Kerberos.antt =====
-- The Kerberos caches of nodeserver.go.
pub mod Kept
pub mod Own
pub mod Linked
use csi_driver_smb.Base.{
  Bool, true, false, ◌&&◌, Option, none, some, List, [], ◌∷◌, ◌++◌, if◌then◌else◌, is_empty,
}
use csi_driver_smb.Base.Int.{ℤ}
use csi_driver_smb.Text.{Text, codes, text_eq, to_lower}
use csi_driver_smb.Dict.{Dict}
use csi_driver_smb.Result.{
  Reason, Result, ok, err, kerberos_directory, no_cred_uid, empty_kerberos_cache,
  malformed_kerberos_cache, write_kerberos_failed, chown_kerberos_failed, symlink_kerberos_failed,
}
use csi_driver_smb.Exec.{pure, raise, lift, ◌>>=◌, ◌>>◌, wrap, check_none}
use csi_driver_smb.Options.{has_kerberos_mount_option, get_cred_uid}
use csi_driver_smb.Kerberos.{krb5_ccache_name, kerberos_file_path, volume_kerberos_cache_name}
use csi_driver_smb.Kerberos.Base64.{decode}
use csi_driver_smb.World.{
  OsError, not_exist, stat, write_file, chown, lstat, remove_all, remove, unique_suffix, symlink,
  rename, read_dir, read_link, Env, Run, perform, perform_flag, perform_text, perform_texts,
  check_os,
}
use csi_driver_smb.Config.{Config}

-- the value under the key, up to letter case; the last one visited counts
unfoldable pub cache_content : Text → Text → Dict → Text
cache_content name found [] = found
cache_content name found ((k, v) ∷ secrets) =
    cache_content name (if text_eq (to_lower k) name then v else found) secrets

decoded : Text → Option Text → Result Reason (Text × Text)
decoded file none = err malformed_kerberos_cache
decoded file (some content) = ok (file, content)

-- the file that the cache of the user is read from, and its content; the secrets in visiting order
unfoldable pub get_kerberos_cache : Text → Text → ℤ → Dict → Result Reason (Text × Text)
unfolding cache_content decoded
get_kerberos_cache directory prefix cred_uid secrets =
    let name = krb5_ccache_name prefix cred_uid in
    let content = cache_content name [] secrets in
    if is_empty content
    then err empty_kerberos_cache
    else decoded (kerberos_file_path directory name) (decode content)

or_no_uid : Option ℤ → Result Reason ℤ
or_no_uid none = err no_cred_uid
or_no_uid (some n) = ok n

module _ (env : Env) where
  unfoldable pub kerberos_cache_directory_exists : Text → Run OsError (Unit {0})
  kerberos_cache_directory_exists directory = do e ← perform env (stat directory); check_os e

  -- a directory at the path of the link is removed first
  remove_directory : Text → Option OsError × Bool → Run Reason (Unit {0})
  remove_directory file (none, true) = do
    e ← perform env (remove_all file)
    check_none e symlink_kerberos_failed
  remove_directory file _ = pure tt

  rename_or_remove : Text → Option OsError → Run Reason Bool
  rename_or_remove temp none = pure true
  rename_or_remove temp (some _) = do perform env (remove temp); raise symlink_kerberos_failed

  -- the cache is written to a file of the volume, and the link of the user is moved to it
  write_kerberos_cache : Text → Text → ℤ → Text × Text → Run Reason Bool
  unfolding remove_directory rename_or_remove
  write_kerberos_cache directory volume_id cred_uid (file, content) = do
    let volume_file = kerberos_file_path directory (volume_kerberos_cache_name volume_id)
    written ← perform env (write_file volume_file content)
    check_none written write_kerberos_failed
    owned ← perform env (chown volume_file cred_uid)
    check_none owned chown_kerberos_failed
    info ← perform_flag env (lstat file)
    remove_directory file info
    suffix ← perform_text env unique_suffix
    let temp = file ++ codes ".tmp." ++ suffix.1
    linked ← perform env (symlink volume_file temp)
    check_none linked symlink_kerberos_failed
    renamed ← perform env (rename temp file)
    rename_or_remove temp renamed

  unfoldable pub ensure_kerberos_cache : Text → Text → Text → List Text → Dict → Run Reason Bool
  unfolding kerberos_cache_directory_exists or_no_uid write_kerberos_cache
  ensure_kerberos_cache directory prefix volume_id flags secrets =
      if has_kerberos_mount_option flags
      then (do
        wrap (λ _. kerberos_directory) (kerberos_cache_directory_exists directory)
        cred_uid ← lift (or_no_uid (get_cred_uid flags))
        cache ← lift (get_kerberos_cache directory prefix cred_uid (env.visit secrets))
        write_kerberos_cache directory volume_id cred_uid cache)
      else pure false

  -- an error of os.Remove is logged only
  remove_link : Text → Text → Text → Run OsError (Unit {0})
  remove_link volume_file path target =
      if text_eq target volume_file then (do perform env (remove path); pure tt) else pure tt

  look_at_link : Text → Text → Option OsError → Run OsError (Unit {0})
  unfolding remove_link
  look_at_link volume_file path none = do
    target ← perform_text env (read_link path)
    remove_link volume_file path target.1
  look_at_link volume_file path (some _) = pure tt

  remove_if_link : Text → Text → Text → Run OsError (Unit {0})
  unfolding look_at_link
  remove_if_link directory volume_file name = do
    let path = kerberos_file_path directory name
    e ← perform env (lstat path)
    look_at_link volume_file path e

  remove_links : Text → Text → List Text → Run OsError (Unit {0})
  unfolding remove_if_link
  remove_links directory volume_file [] = pure tt
  remove_links directory volume_file (name ∷ names) =
      remove_if_link directory volume_file name >> remove_links directory volume_file names

  remove_cache : Text → Text → Option OsError → Run OsError (Unit {0})
  unfolding remove_links
  remove_cache directory volume_file (some not_exist) = pure tt
  remove_cache directory volume_file (some e) = raise e
  remove_cache directory volume_file none = do
    entries ← perform_texts env (read_dir directory)
    remove_links directory volume_file entries.1
    perform env (remove volume_file)
    pure tt

  -- Where the directory cannot be looked at, nothing is done, and that is no error.
  after_directory : Text → Text → Option OsError → Run OsError (Unit {0})
  unfolding remove_cache
  after_directory directory volume_id (some _) = pure tt
  after_directory directory volume_id none = do
    let volume_file = kerberos_file_path directory (volume_kerberos_cache_name volume_id)
    e ← perform env (stat volume_file)
    remove_cache directory volume_file e

  unfoldable pub delete_kerberos_cache : Text → Text → Run OsError (Unit {0})
  unfolding after_directory
  delete_kerberos_cache directory volume_id = do
    e ← perform env (stat directory)
    after_directory directory volume_id e
