-- ===== src/Result.antt =====
-- Errors as values: gRPC codes, and one constructor for each message that the driver makes.
pub mod Laws
use csi_driver_smb.Base.{Bool, true, false}

-- google.golang.org/grpc/codes; an error that carries no status is `unknown` to a client
pub data Code : Type 0 where
  canceled unknown invalid_argument deadline_exceeded not_found aborted unimplemented internal :
      Code
  unavailable : Code

pub data Reason : Type 0 where
  directory_traversal invalid_on_delete invalid_parameter source_required : Reason
  invalid_source invalid_sub_dir invalid_uuid could_not_split : Reason
  capabilities_missing block_not_supported : Reason
  name_missing volume_id_missing capability_missing target_missing staging_missing : Reason
  capacity_range_missing source_field_missing operation_exists not_implemented : Reason
  secret_failed kerberos_failed mkdir_failed ensure_failed prepare_failed : Reason
  mount_failed mount_timeout mount_canceled remove_target_failed unmount_failed : Reason
  delete_kerberos_failed cache_failed mount_server_failed make_sub_dir_failed : Reason
  delete_archived_failed archive_failed make_parent_failed delete_failed : Reason
  snapshot_source improper_source copy_failed source_volume_invalid : Reason
  mount_source_failed mount_destination_failed : Reason
  no_cred_uid empty_kerberos_cache malformed_kerberos_cache kerberos_directory : Reason
  write_kerberos_failed chown_kerberos_failed symlink_kerberos_failed : Reason
  path_not_found stat_failed metrics_failed transform_failed : Reason
  driver_name_missing driver_version_missing : Reason
  not_supported invalid_endpoint : Reason
  path_too_long leading_backslash unc_prefix invalid_characters not_absolute : Reason

pub record Status : Type 0 where
  pub code : Code
  pub reason : Reason

abbrev pub status : Code → Reason → Status
status c r = record { code = c; reason = r }

infixl 5 ◌>>=◌ ◌>>◌
pub data Result {ℓ κ} (E : Type ℓ) (A : Type κ) : Type (ℓ ⊔ κ) where
  ok : A → Result E A
  err : E → Result E A

abbrev pub ◌>>=◌ {ℓ κ μ} :
    {E : Type ℓ} {A : Type κ} {B : Type μ} → Result E A → (A → Result E B) → Result E B
ok a >>= f = f a
err e >>= f = err e

abbrev pub ◌>>◌ {ℓ κ} : {E : Type ℓ} {B : Type κ} → Result E (Unit {0}) → Result E B → Result E B
m >> k = m >>= λ _. k

-- `if err != nil { return fmt.Errorf(…) }`: the error is replaced by another
abbrev pub or_err {ℓ κ} : {E F : Type ℓ} {A : Type κ} → Result E A → F → Result F A
or_err (ok a) f = ok a
or_err (err e) f = err f

abbrev pub require {ℓ} : {E : Type ℓ} → Bool → E → Result E (Unit {0})
require true e = ok tt
require false e = err e
