-- ===== src/Examples/Caches.antt =====
-- Kerberos caches on a concrete input: a link of the directory leads to the cache of the volume.
use csi_driver_smb.Base.{◌≡◌, refl, ◌⊎◌, Bool, true, false, none, some, List, [], ◌∷◌}
use csi_driver_smb.Text.{Text, codes}
use csi_driver_smb.Base.Int.{ℤ}
use csi_driver_smb.Dict.{Dict}
use csi_driver_smb.Options.{has_kerberos_mount_option, get_cred_uid}
use csi_driver_smb.Result.{Result, ok, Reason}
use csi_driver_smb.Kerberos.{kerberos_file_path, volume_kerberos_cache_name}
use csi_driver_smb.World.{Trace, done, remove, stat, Env, World, note}
use csi_driver_smb.Node.Kerberos.{delete_kerberos_cache, ensure_kerberos_cache, get_kerberos_cache}
use csi_driver_smb.Node.Kerberos.Linked.{Linked, ensure_kerberos_cache-Linked}
use csi_driver_smb.Node.Kerberos.Own.{Owns, delete_kerberos_cache-Owns}
use csi_driver_smb.Driver.{new_driver}
use csi_driver_smb.Examples.World.{quiet}

abbrev directory : Text
directory = codes "/krb5/"

abbrev cache_file : Text
cache_file = kerberos_file_path directory (volume_kerberos_cache_name (codes "v"))

abbrev linked : Env
linked = record (quiet done) {
  text = λ calls c. cache_file;
  texts = λ calls c. codes "krb5cc_1000" ∷ [];
}

delete_kerberos_cache-Owns_example :
    Owns linked cache_file []
      (delete_kerberos_cache linked directory (codes "v") new_driver).1.trace
    × (linked.error [] (stat directory) ≡ none
        → linked.error (stat directory ∷ []) (stat cache_file) ≡ none
        → ((delete_kerberos_cache linked directory (codes "v") new_driver).0 ≡ ok tt)
          × ((calls : Trace) × ((delete_kerberos_cache linked directory
                  (codes "v")
                  new_driver).1.trace
                ≡ remove cache_file ∷ calls)))
delete_kerberos_cache-Owns_example =
    delete_kerberos_cache-Owns linked directory (codes "v") new_driver

abbrev flags : List Text
flags = codes "sec=krb5" ∷ codes "cruid=1000" ∷ []

-- the cache of the user, in base64
abbrev caches : Dict
caches = (codes "krb5cc_1000", codes "aGk=") ∷ []

abbrev ensured : Result Reason Bool × World
ensured =
    ensure_kerberos_cache (quiet done) directory (codes "krb5cc_") (codes "v") flags caches
      new_driver

ensured-succeeds : ensured ≡ (ok true, ensured.1)
unfolding ensure_kerberos_cache has_kerberos_mount_option csi_driver_smb.Text.has_prefix
    csi_driver_smb.Exec.◌>>=◌ csi_driver_smb.Exec.wrap csi_driver_smb.World.perform
    csi_driver_smb.World.check_os get_cred_uid csi_driver_smb.Strconv.atoi
    csi_driver_smb.Text.trim_prefix get_kerberos_cache csi_driver_smb.Text.text_eq
    csi_driver_smb.Text.to_lower csi_driver_smb.Kerberos.krb5_ccache_name
    csi_driver_smb.Strconv.itoa csi_driver_smb.Kerberos.Base64.decode csi_driver_smb.Exec.check_none
    csi_driver_smb.World.perform_flag csi_driver_smb.World.perform_text
ensured-succeeds = refl

ensure_kerberos_cache-Linked_example :
    ((has_kerberos_mount_option flags ≡ false) × (true ≡ false) × (ensured.1 ≡ new_driver))
    ⊎ ((has_kerberos_mount_option flags ≡ true)
        × (true ≡ true)
        × ((uid : ℤ) × (file : Text) × (content : Text) × (get_cred_uid flags ≡ some uid)
            × (get_kerberos_cache directory (codes "krb5cc_") uid caches ≡ ok (file, content))
            × Linked
                (quiet done)
                file
                content
                cache_file
                uid
                (note (stat directory) new_driver)
                ensured.1))
ensure_kerberos_cache-Linked_example =
    ensure_kerberos_cache-Linked (quiet done) directory (codes "krb5cc_") (codes "v") flags caches
      true new_driver ensured.1 ensured-succeeds
