-- ===== src/Node/Publish.antt =====
-- NodePublishVolume and NodeUnpublishVolume of nodeserver.go.
pub mod Kept
use csi_driver_smb.Base.{
  Bool, true, false, not, ◌&&◌, ◌||◌, Option, none, some, List, [], ◌∷◌, ◌++◌, if◌then◌else◌,
  is_empty, any,
}
use csi_driver_smb.Text.{Text, codes, text_eq, equal_fold}
use csi_driver_smb.Dict.{Dict, get, set_key_value_in_map}
use csi_driver_smb.Names.{ephemeral_field, true_value, secret_namespace_field, pod_namespace_field}
use csi_driver_smb.Result.{
  Result, ok, err, Status, status, invalid_argument, internal, unknown, volume_id_missing,
  capability_missing, target_missing, staging_missing, ensure_failed, prepare_failed, mount_failed,
  remove_target_failed, unmount_failed,
}
use csi_driver_smb.Exec.{pure, raise, lift, ◌>>=◌, ◌>>◌, wrap, check, check_none}
use csi_driver_smb.World.{OsError, mount, remove, Env, Run, perform}
use csi_driver_smb.Config.{Config}
use csi_driver_smb.Node.Mounter.{ensure_mount_point, cleanup_publish_point, prepare_path}
use csi_driver_smb.Node.Context.{
  AccessMode, multi_node_reader_only, single_node_reader_only, VolumeCapability, mount_of,
}
use csi_driver_smb.Node.Stage.{required, node_stage_volume}

pub record PublishRequest : Type 0 where
  pub volume_id : Text
  pub capability : Option VolumeCapability
  pub staging_target_path : Text
  pub target_path : Text
  pub readonly : Bool
  pub volume_context : Option Dict

pub record UnpublishRequest : Type 0 where
  pub volume_id : Text
  pub target_path : Text

abbrev pub is_reader_only : Option AccessMode → Bool
is_reader_only (some multi_node_reader_only) = true
is_reader_only (some single_node_reader_only) = true
is_reader_only _ = false

-- read-only if the request, the access mode or a mount flag says so
unfoldable pub is_readonly : Bool → VolumeCapability → Bool
is_readonly readonly c =
    readonly
    || (is_reader_only c.access_mode
        || any (λ flag. text_eq flag (codes "ro")) (mount_of c.access_type).mount_flags)

unfoldable pub publish_options : Bool → VolumeCapability → List Text
unfolding is_readonly
publish_options readonly c = codes "bind" ∷ (if is_readonly readonly c then codes "ro" ∷ [] else [])

-- the map of an ephemeral volume's context, if the context is one
unfoldable pub ephemeral_context : Option Dict → Option Dict
ephemeral_context none = none
ephemeral_context (some context) =
    if equal_fold (get context ephemeral_field) true_value then some context else none

abbrev dict_of : Option Dict → Dict
dict_of none = []
dict_of (some m) = m

module _ (env : Env) (cfg : Config) where
  -- the target is removed again when the bind mount fails
  after_bind_mount : Text → Option OsError → Run Status (Unit {0})
  after_bind_mount target none = pure tt
  after_bind_mount target (some _) = do
    e ← perform env (remove target)
    check_none e (status internal remove_target_failed)
    raise (status internal mount_failed)

  bind_mount : Text → Text → List Text → Bool → Run Status (Unit {0})
  unfolding after_bind_mount
  bind_mount source target options true = pure tt
  bind_mount source target options false = do
    wrap (λ _. status unknown prepare_failed) (prepare_path env cfg.windows target)
    e ← perform env (mount source target [] options)
    after_bind_mount target e

  -- the secrets of an ephemeral volume are those of the pod's namespace
  stage_ephemeral : PublishRequest → VolumeCapability → Dict → Run Status (Unit {0})
  stage_ephemeral req capability context = node_stage_volume env cfg (record {
    volume_id = req.volume_id;
    capability = some capability;
    staging_target_path = req.target_path;
    volume_context = dict_of (
        set_key_value_in_map env.visit (some context) secret_namespace_field
          (get context pod_namespace_field));
    secrets = [];
  })

  publish_or_stage : PublishRequest → VolumeCapability → Option Dict → Run Status (Unit {0})
  unfolding bind_mount stage_ephemeral
  publish_or_stage req capability (some context) = stage_ephemeral req capability context
  publish_or_stage req capability none = do
    check (not (is_empty req.staging_target_path)) (status invalid_argument staging_missing)
    mounted ←
        wrap (λ _. status internal ensure_failed)
          (ensure_mount_point env cfg.windows req.target_path)
    bind_mount req.staging_target_path req.target_path (publish_options req.readonly capability)
        mounted

  unfoldable pub node_publish_volume : PublishRequest → Run Status (Unit {0})
  unfolding publish_or_stage
  node_publish_volume req = do
    capability ← lift (required req.capability capability_missing)
    check (not (is_empty req.volume_id)) (status invalid_argument volume_id_missing)
    check (not (is_empty req.target_path)) (status invalid_argument target_missing)
    publish_or_stage req capability (ephemeral_context req.volume_context)

  unfoldable pub node_unpublish_volume : UnpublishRequest → Run Status (Unit {0})
  node_unpublish_volume req = do
    check (not (is_empty req.volume_id)) (status invalid_argument volume_id_missing)
    check (not (is_empty req.target_path)) (status invalid_argument target_missing)
    wrap (λ _. status internal unmount_failed)
        (cleanup_publish_point env cfg.windows req.target_path)
