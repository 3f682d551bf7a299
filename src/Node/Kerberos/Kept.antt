-- ===== src/Node/Kerberos/Kept.antt =====
-- The functions on Kerberos caches move and remove nothing but the links in their directory.
use csi_driver_smb.Base.{◌≡◌, Bool, true, false, Option, none, some, List, [], ◌∷◌, arith}
use csi_driver_smb.Base.Int.{ℤ}
use csi_driver_smb.Text.{Text}
use csi_driver_smb.Dict.{Dict}
use csi_driver_smb.Result.{ok}
use csi_driver_smb.Exec.Keeps.{Keeps, Keeps-bind, Keeps-bind_lift, keeps_rules}
use csi_driver_smb.Kerberos.{kerberos_file_path, krb5_ccache_name}
use csi_driver_smb.World.{
  OsError, not_exist, exist, corrupted, end_of_file, other, Call, Env, World, note, remove_all,
  rename,
}
use csi_driver_smb.Invariant.{is_ordinary, call_rules}
use csi_driver_smb.Node.Kerberos.{
  kerberos_cache_directory_exists, remove_directory, rename_or_remove, write_kerberos_cache,
  ensure_kerberos_cache, remove_link, look_at_link, remove_if_link, remove_links, remove_cache,
  after_directory, delete_kerberos_cache, get_kerberos_cache,
}

fetched_file :
    (directory prefix : Text) (cred_uid : ℤ) (secrets : Dict) (file content : Text)
    → get_kerberos_cache directory prefix cred_uid secrets ≡ ok (file, content)
    → file ≡ kerberos_file_path directory (krb5_ccache_name prefix cred_uid)
unfolding get_kerberos_cache
fetched_file directory prefix cred_uid secrets file content h = ground arith

module _ (env : Env) {P : World → Type 0}
    (bears : (c : Call) (w : World) → is_ordinary c ≡ true → P w → P (note c w)) where
  Keeps-kerberos_cache_directory_exists :
      (directory : Text) → Keeps P (kerberos_cache_directory_exists env directory)
  unfolding kerberos_cache_directory_exists
  Keeps-kerberos_cache_directory_exists directory = search (keeps_rules, call_rules)

  Keeps-remove_link :
      (volume_file path target : Text) → Keeps P (remove_link env volume_file path target)
  unfolding remove_link
  Keeps-remove_link volume_file path target = search (keeps_rules, call_rules)

  Keeps-look_at_link :
      (volume_file path : Text) (o : Option OsError) → Keeps P (look_at_link env volume_file path o)
  unfolding look_at_link
  Keeps-look_at_link volume_file path none = search (keeps_rules, call_rules, Keeps-remove_link)
  Keeps-look_at_link volume_file path (some e) = search keeps_rules

  Keeps-remove_if_link :
      (directory volume_file name : Text) → Keeps P (remove_if_link env directory volume_file name)
  unfolding remove_if_link
  Keeps-remove_if_link directory volume_file name =
      search (keeps_rules, call_rules, Keeps-look_at_link)

  Keeps-remove_links :
      (directory volume_file : Text) (names : List Text)
      → Keeps P (remove_links env directory volume_file names)
  unfolding remove_links
  Keeps-remove_links directory volume_file [] = search keeps_rules
  Keeps-remove_links directory volume_file (name ∷ names) =
      Keeps-bind (remove_if_link env directory volume_file name)
        (λ _. remove_links env directory volume_file names)
        (Keeps-remove_if_link directory volume_file name)
        (λ _. Keeps-remove_links directory volume_file names)

  Keeps-remove_cache :
      (directory volume_file : Text) (o : Option OsError)
      → Keeps P (remove_cache env directory volume_file o)
  unfolding remove_cache
  Keeps-remove_cache directory volume_file none =
      search (keeps_rules, call_rules, Keeps-remove_links)
  Keeps-remove_cache directory volume_file (some not_exist) = search keeps_rules
  Keeps-remove_cache directory volume_file (some exist) = search keeps_rules
  Keeps-remove_cache directory volume_file (some corrupted) = search keeps_rules
  Keeps-remove_cache directory volume_file (some end_of_file) = search keeps_rules
  Keeps-remove_cache directory volume_file (some other) = search keeps_rules

  Keeps-after_directory :
      (directory volume_id : Text) (o : Option OsError)
      → Keeps P (after_directory env directory volume_id o)
  unfolding after_directory
  Keeps-after_directory directory volume_id none =
      search (keeps_rules, call_rules, Keeps-remove_cache)
  Keeps-after_directory directory volume_id (some e) = search keeps_rules

  pub Keeps-delete_kerberos_cache :
      (directory volume_id : Text) → Keeps P (delete_kerberos_cache env directory volume_id)
  unfolding delete_kerberos_cache
  Keeps-delete_kerberos_cache directory volume_id =
      search (keeps_rules, call_rules, Keeps-after_directory)

  module _ (directory : Text)
      (removed : (name : Text) (w : World)
        → P w
        → P (note (remove_all (kerberos_file_path directory name)) w))
      (renamed : (from name : Text) (w : World)
        → P w
        → P (note (rename from (kerberos_file_path directory name)) w)) where
    Keeps-remove_directory :
        (name : Text) (o : Option OsError × Bool)
        → Keeps P (remove_directory env (kerberos_file_path directory name) o)
    unfolding remove_directory
    Keeps-remove_directory name (none, true) = search (keeps_rules, call_rules)
    Keeps-remove_directory name (none, false) = search keeps_rules
    Keeps-remove_directory name (some e, b) = search keeps_rules

    Keeps-rename_or_remove :
        (temp : Text) (o : Option OsError) → Keeps P (rename_or_remove env temp o)
    unfolding rename_or_remove
    Keeps-rename_or_remove temp none = search keeps_rules
    Keeps-rename_or_remove temp (some e) = search (keeps_rules, call_rules)

    Keeps-write_kerberos_cache :
        (volume_id name content : Text) (cred_uid : ℤ)
        → Keeps P (
            write_kerberos_cache env directory volume_id cred_uid
              (kerberos_file_path directory name, content))
    unfolding write_kerberos_cache
    Keeps-write_kerberos_cache volume_id name content cred_uid =
        search (keeps_rules, call_rules, Keeps-remove_directory, Keeps-rename_or_remove) depth 30

    Keeps-write_fetched :
        (volume_id prefix : Text) (secrets : Dict) (cred_uid : ℤ) (cache : Text × Text)
        → get_kerberos_cache directory prefix cred_uid secrets ≡ ok cache
        → Keeps P (write_kerberos_cache env directory volume_id cred_uid cache)
    Keeps-write_fetched volume_id prefix secrets cred_uid (file, content) h =
        rw (fetched_file directory prefix cred_uid secrets file content h)
          (Keeps-write_kerberos_cache volume_id (krb5_ccache_name prefix cred_uid) content cred_uid)

    pub Keeps-ensure_kerberos_cache :
        (prefix volume_id : Text) (flags : List Text) (secrets : Dict)
        → Keeps P (ensure_kerberos_cache env directory prefix volume_id flags secrets)
    unfolding ensure_kerberos_cache
    Keeps-ensure_kerberos_cache prefix volume_id flags secrets =
        search
          (keeps_rules, Keeps-kerberos_cache_directory_exists, Keeps-bind_lift, Keeps-write_fetched)
          depth 9
