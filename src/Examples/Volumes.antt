-- ===== src/Examples/Volumes.antt =====
-- Volumes, their ids and their names on concrete inputs.
use csi_driver_smb.Base.{
  ◌||◌, inr, arith, ◌≡◌, ◌≢◌, ◌↔◌, refl, true, false, some, [], ◌∷◌, All, ◌==◌,
}
use csi_driver_smb.Base.Int.{pos}
use mathlib.Core.List.Perm
use mathlib.Core.List.{Pairwise-pair}
use csi_driver_smb.Result.{ok}
use csi_driver_smb.Text.{
  codes, text_eq, to_lower, equal_fold, cut, split_by, drop_empty, fields_func,
}
use csi_driver_smb.Text.Search.{text_eq_iff}
use csi_driver_smb.Text.Parts.{Lacks}
use csi_driver_smb.Dict.{Dict, set_key_value_in_map}
use csi_driver_smb.Dict.Laws.{Written, set_key_value_in_map-Written}
use csi_driver_smb.Locks.{has, try_acquire, release, new_volume_locks}
use csi_driver_smb.Locks.Laws.{release-try_acquire}
use csi_driver_smb.Names.{secret_namespace_field, default_file_mode, file_mode}
use csi_driver_smb.Options.{
  append_mount_options, contains_special_character, needs_credentials_option, credential_options,
}
use csi_driver_smb.Options.Append.{
  Appended, append_mount_options-Appended, needs_credentials_option-credential_options,
}
use csi_driver_smb.Kerberos.{volume_kerberos_cache_name}
use csi_driver_smb.Kerberos.Base64.{encode, decode}
use csi_driver_smb.Kerberos.Base64.RoundTrip.{IsByte, decode-encode}
use csi_driver_smb.Kerberos.Names.{volume_kerberos_cache_name-injective}
use csi_driver_smb.Volume.Defs.{SmbVolume, validate_path, volume_id_from_smb_vol, smb_vol_from_id}
use csi_driver_smb.Volume.Params.{parse_params, no_params}
use csi_driver_smb.Volume.Validation.{validate_path-append}
use csi_driver_smb.Volume.Id.{kept_by_id, smb_vol_from_id-volume_id_from_smb_vol}
use csi_driver_smb.Volume.Paths.{IsSafe}
use csi_driver_smb.Volume.Order.{parse_params-Perm}

abbrev share : SmbVolume
share = record {
  id = [];
  source = codes "//server/share";
  sub_dir = codes "/data/";
  size = pos 0;
  uuid = codes "pv1";
  on_delete = codes "Retain";
}

share-IsSafe : IsSafe share
unfolding validate_path fields_func drop_empty split_by cut text_eq
share-IsSafe = record { sub_dir = refl; uuid = refl }

smb_vol_from_id-volume_id_from_smb_vol_example :
    smb_vol_from_id (volume_id_from_smb_vol share) ≡ ok (kept_by_id share)
smb_vol_from_id-volume_id_from_smb_vol_example =
    smb_vol_from_id-volume_id_from_smb_vol share clear_source clear_sub_dir clear_uuid
      share-IsSafe.sub_dir share-IsSafe.uuid
  where
    clear_source : Lacks (λ c. c == b'#') share.source
    clear_source = search

    clear_sub_dir : Lacks (λ c. c == b'#') share.sub_dir
    clear_sub_dir = search

    clear_uuid : Lacks (λ c. c == b'#') share.uuid
    clear_uuid = (refl, (refl, (refl, tt)))

lone_dots : Lacks (λ r. r == b'/' || r == b'\\') (codes "..")
lone_dots = search

validate_path-append_example :
    ((validate_path (codes "a\\..") ≡ ok tt)
      ↔ ((validate_path (codes "a") ≡ ok tt) × (validate_path (codes "..") ≡ ok tt)))
    × ((validate_path (codes "..") ≡ ok tt) ↔ (text_eq (codes "..") (codes "..") ≡ false))
validate_path-append_example =
    validate_path-append (codes "a") (codes "..") (codes "..") b'\\' (inr refl) lone_dots

ab_bytes : All IsByte (codes "ab")
ab_bytes = (omega arith, (omega arith, tt))

decode-encode_example : decode (encode (codes "ab")) ≡ some (codes "ab")
decode-encode_example = decode-encode (codes "ab") ab_bytes

volume_kerberos_cache_name-injective_example :
    (codes "ab" ≡ codes "ab") × Lacks (λ c. c == b'/') (volume_kerberos_cache_name (codes "ab"))
volume_kerberos_cache_name-injective_example =
    volume_kerberos_cache_name-injective (codes "ab") (codes "ab") ab_bytes ab_bytes refl

release-try_acquire_example :
    ((try_acquire new_volume_locks (codes "a")).0 ≡ true)
    × (try_acquire (try_acquire new_volume_locks (codes "a")).1 (codes "a")
        ≡ (false, (try_acquire new_volume_locks (codes "a")).1))
    × (has (release (try_acquire new_volume_locks (codes "a")).1 (codes "a")) (codes "b")
        ≡ has new_volume_locks (codes "b"))
unfolding has
release-try_acquire_example = release-try_acquire new_volume_locks (codes "a") (codes "b") free
  where
    free : has new_volume_locks (codes "a") ≡ false
    free = refl

-- a parameter and one that is spelled otherwise
abbrev source_first : Dict
source_first = (codes "Source", codes "//s/x") ∷ (codes "subDir", codes "d") ∷ []

abbrev sub_dir_first : Dict
sub_dir_first = (codes "subDir", codes "d") ∷ (codes "Source", codes "//s/x") ∷ []

keys_apart : to_lower (codes "Source") ≢ to_lower (codes "subDir")
unfolding to_lower text_eq
keys_apart e =
    (let h : text_eq (to_lower (codes "Source")) (to_lower (codes "subDir")) ≡ true =
        (text_eq_iff (to_lower (codes "Source")) (to_lower (codes "subDir"))).1 e in
      cc)

parse_params-Perm_example :
    parse_params no_params source_first ≡ parse_params no_params sub_dir_first
parse_params-Perm_example =
    parse_params-Perm source_first sub_dir_first no_params (Perm.swap _ _ _)
      ((Pairwise-pair (λ a b. hlevel)).1 keys_apart)

abbrev context : Dict
context = (codes "secretNamespace", codes "mine") ∷ []

abbrev context' : Dict
context' = (codes "secretNamespace", codes "pods") ∷ []

set_key :
    set_key_value_in_map (λ m. m) (some context) secret_namespace_field (codes "pods")
    ≡ some context'
unfolding set_key_value_in_map equal_fold
set_key = refl

set_key_value_in_map-Written_example :
    Written context secret_namespace_field (codes "pods") context context'
set_key_value_in_map-Written_example =
    set_key_value_in_map-Written (λ m. m) context context' secret_namespace_field (codes "pods")
      set_key

abbrev modes : Dict
modes = (file_mode, default_file_mode) ∷ []

append_mount_options-Appended_example :
    Appended (codes "vers=3.0" ∷ []) modes (append_mount_options (codes "vers=3.0" ∷ []) modes)
append_mount_options-Appended_example = append_mount_options-Appended (codes "vers=3.0" ∷ []) modes

needs_credentials_option-credential_options_example :
    needs_credentials_option (credential_options (codes "u") (codes "p,q"))
    ≡ contains_special_character (codes "p,q")
needs_credentials_option-credential_options_example =
    needs_credentials_option-credential_options (codes "u") (codes "p,q")
