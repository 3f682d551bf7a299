-- ===== src/Node/Context.antt =====
-- What NodeStageVolume of nodeserver.go reads of a request: the volume capability, the loop over the
-- volume context, the loop over the secrets, and the mount options that it makes of them.
use csi_driver_smb.Base.{
  Bool, false, not, ◌&&◌, Option, some, List, [], ◌∷◌, ◌++◌, if◌then◌else◌, is_empty,
}
use csi_driver_smb.Text.{Text, codes, text_eq, to_lower, equal_fold, trim_space, contains}
use csi_driver_smb.Dict.{Dict}
use csi_driver_smb.Names.{
  source_field, sub_dir_field, pvc_namespace_key, pvc_name_key, pv_name_key, secret_name_field,
  secret_namespace_field, ephemeral_field, mount_options_field, true_value, username_field,
  password_field, domain_field, default_domain_name,
}
use csi_driver_smb.Options.{
  option_text, check_gid_present_in_mount_flags, credential_options, group_options,
}
use csi_driver_smb.Volume.Params.{Metadata, no_metadata}

pub data AccessMode : Type 0 where
  unknown single_node_writer single_node_reader_only multi_node_reader_only : AccessMode
  multi_node_single_writer multi_node_multi_writer : AccessMode
  single_node_single_writer single_node_multi_writer : AccessMode

pub record MountVolume : Type 0 where
  pub mount_flags : List Text
  pub volume_mount_group : Text

-- the oneof `access_type`
pub data AccessType : Type 0 where
  unset block : AccessType
  mounted : MountVolume → AccessType

pub record VolumeCapability : Type 0 where
  pub access_type : AccessType
  pub access_mode : Option AccessMode

abbrev pub no_mount : MountVolume
no_mount = record { mount_flags = []; volume_mount_group = [] }

-- GetMount(), whose getters give the empty values at nil
abbrev pub mount_of : AccessType → MountVolume
mount_of (mounted m) = m
mount_of _ = no_mount

-- the cases of the switch over the volume context
pub data ContextKey : Type 0 where
  source sub_dir pvc_namespace pvc_name pv_name secret_name secret_namespace : ContextKey
  ephemeral mount_options other : ContextKey

unfoldable pub context_key : Text → ContextKey
context_key k =
    let l = to_lower k in
    if text_eq l source_field
    then source
    else if text_eq l sub_dir_field
    then sub_dir
    else if text_eq l pvc_namespace_key
    then pvc_namespace
    else if text_eq l pvc_name_key
    then pvc_name
    else if text_eq l pv_name_key
    then pv_name
    else if text_eq l secret_name_field
    then secret_name
    else if text_eq l secret_namespace_field
    then secret_namespace
    else if text_eq l ephemeral_field
    then ephemeral
    else if text_eq l mount_options_field
    then mount_options
    else other

pub record StageContext : Type 0 where
  pub source : Text
  pub sub_dir : Text
  pub secret_name : Text
  pub secret_namespace : Text
  pub ephemeral : Bool
  pub mount_options : Text
  pub metadata : Metadata

abbrev pub no_context : StageContext
no_context = record {
  source = [];
  sub_dir = [];
  secret_name = [];
  secret_namespace = [];
  ephemeral = false;
  mount_options = [];
  metadata = no_metadata;
}

unfoldable pub set_context : ContextKey → Text → StageContext → StageContext
set_context ContextKey.source v c = record c { source = v }
set_context ContextKey.sub_dir v c = record c { sub_dir = v }
set_context ContextKey.pvc_namespace v c = record c {
  metadata = record (c.metadata) { pvc_namespace = some v };
}
set_context ContextKey.pvc_name v c = record c {
  metadata = record (c.metadata) { pvc_name = some v };
}
set_context ContextKey.pv_name v c = record c {
  metadata = record (c.metadata) { pv_name = some v };
}
set_context ContextKey.secret_name v c = record c { secret_name = v }
set_context ContextKey.secret_namespace v c = record c { secret_namespace = v }
set_context ContextKey.ephemeral v c = record c { ephemeral = equal_fold v true_value }
set_context ContextKey.mount_options v c = record c { mount_options = v }
set_context ContextKey.other v c = c

unfoldable pub parse_context : StageContext → Dict → StageContext
unfolding set_context context_key
parse_context c [] = c
parse_context c ((k, v) ∷ context) = parse_context (set_context (context_key k) v c) context

pub record Credentials : Type 0 where
  pub username : Text
  pub password : Text
  pub domain : Text

abbrev pub no_credentials : Credentials
no_credentials = record { username = []; password = []; domain = [] }

abbrev set_credential : Text → Text → Credentials → Credentials
set_credential l v c =
    if text_eq l username_field
    then record c { username = trim_space v }
    else if text_eq l password_field
    then record c { password = trim_space v }
    else if text_eq l domain_field
    then record c { domain = trim_space v }
    else c

unfoldable pub parse_secrets : Credentials → Dict → Credentials
parse_secrets c [] = c
parse_secrets c ((k, v) ∷ secrets) = parse_secrets (set_credential (to_lower k) v c) secrets

-- `mountOptions` and `sensitiveMountOptions`
pub record MountOptions : Type 0 where
  pub options : List Text
  pub sensitive : List Text

unfoldable pub windows_options : Bool → Credentials → MountOptions
windows_options require_password c =
    let domain = if is_empty c.domain then default_domain_name else c.domain in
    let username =
      if contains c.username (codes "\\")
      then c.username
      else domain ++ (codes "\\" ++ c.username) in
    if require_password
    then record { options = username ∷ []; sensitive = c.password ∷ [] }
    else record { options = []; sensitive = [] }

-- `given` are the flags of the capability, in which a gid is looked for; `flags` are those to mount
-- with.
unfoldable pub linux_options :
    Bool → Bool → List Text → Text → List Text → Credentials → MountOptions
linux_options require_password use_kerberos_cache given group flags c =
    let grouped =
      if not (check_gid_present_in_mount_flags given) && not (is_empty group)
      then group_options flags group
      else flags in
    record {
      options =
          if is_empty c.domain then grouped else grouped ++ option_text domain_field c.domain ∷ [];
      sensitive =
          if require_password && not use_kerberos_cache
          then credential_options c.username c.password
          else [];
    }
