-- ===== src/Controller/Mount.antt =====
-- internalMount, internalUnmount, copyFromVolume, copyVolume and isValidVolumeCapabilities.
pub mod Kept
use csi_driver_smb.Base.{
  Bool, true, false, Option, none, some, List, [], ◌∷◌, ◌++◌, if◌then◌else◌, any,
}
use csi_driver_smb.Text.{Text, codes}
use csi_driver_smb.Dict.{Dict}
use csi_driver_smb.Names.{source_field}
use csi_driver_smb.Result.{
  Reason, Result, ok, err, Status, status, invalid_argument, internal, not_found,
  capabilities_missing, block_not_supported, snapshot_source, improper_source, copy_failed,
  source_volume_invalid, mount_source_failed, mount_destination_failed,
}
use csi_driver_smb.Exec.{pure, raise, lift, ◌>>=◌, ◌>>◌, wrap, finally, check_none}
use csi_driver_smb.World.{copy_tree, Env, Run, perform}
use csi_driver_smb.Config.{Config}
use csi_driver_smb.Volume.Defs.{
  SmbVolume, internal_mount_path, internal_volume_path, smb_vol_from_id,
}
use csi_driver_smb.Node.Context.{AccessType, block, mounted, VolumeCapability, no_mount}
use csi_driver_smb.Node.Stage.{node_stage_volume, node_unstage_volume}

is_block : AccessType → Bool
is_block block = true
is_block _ = false

unfoldable pub is_valid_volume_capabilities : List VolumeCapability → Result Reason (Unit {0})
unfolding is_block
is_valid_volume_capabilities [] = err capabilities_missing
is_valid_volume_capabilities (c ∷ cs) =
    if any (λ d. is_block d.access_type) (c ∷ cs) then err block_not_supported else ok tt

-- the oneof of VolumeContentSource
pub data ContentSource : Type 0 where
  from_snapshot improper : ContentSource
  from_volume : Text → ContentSource

abbrev or_mount : Option VolumeCapability → VolumeCapability
or_mount (some c) = c
or_mount none = record { access_type = mounted no_mount; access_mode = none }

abbrev first_capability : List VolumeCapability → Option VolumeCapability
first_capability [] = none
first_capability (c ∷ _) = some c

module _ (env : Env) (cfg : Config) where
  -- Mounts the share of the volume at its directory below the working directory.
  unfoldable pub internal_mount : SmbVolume → Option VolumeCapability → Dict → Run Status (Unit {0})
  internal_mount vol capability secrets = node_stage_volume env cfg (record {
    volume_id = vol.id;
    capability = some (or_mount capability);
    staging_target_path = internal_mount_path cfg.working_mount_dir (some vol);
    volume_context = (source_field, vol.source) ∷ [];
    secrets = secrets;
  })

  unfoldable pub internal_unmount : SmbVolume → Run Status (Unit {0})
  internal_unmount vol = node_unstage_volume env cfg (record {
    volume_id = vol.id;
    staging_target_path = internal_mount_path cfg.working_mount_dir (some vol);
  })

  -- a mount for the time of the body
  unfoldable pub mounted_for :
      SmbVolume
      → Option VolumeCapability
      → Dict
      → Status
      → Run Status (Unit {0})
      → Run Status (Unit {0})
  unfolding internal_mount internal_unmount
  mounted_for vol capability secrets failed body = do
    wrap (λ _. failed) (internal_mount vol capability secrets)
    finally body (internal_unmount vol)

  unfoldable pub copy_from_volume :
      Text → List VolumeCapability → Dict → SmbVolume → Run Status (Unit {0})
  unfolding mounted_for
  copy_from_volume source_id capabilities secrets dst_vol = do
    src_vol ←
        wrap (λ (_ : Reason). status not_found source_volume_invalid)
          (lift (smb_vol_from_id source_id))
    let src_path = internal_volume_path cfg.working_mount_dir src_vol ++ codes "/."
    let dst_path = internal_volume_path cfg.working_mount_dir dst_vol
    let capability = first_capability capabilities
    mounted_for src_vol capability secrets (status internal mount_source_failed) (
        mounted_for dst_vol capability secrets (status internal mount_destination_failed) (do
          e ← perform env (copy_tree src_path dst_path)
          check_none e (status internal copy_failed)))

  unfoldable pub copy_volume :
      ContentSource → List VolumeCapability → Dict → SmbVolume → Run Status (Unit {0})
  unfolding copy_from_volume
  copy_volume from_snapshot capabilities secrets vol =
      raise (status invalid_argument snapshot_source)
  copy_volume (from_volume id) capabilities secrets vol =
      copy_from_volume id capabilities secrets vol
  copy_volume improper capabilities secrets vol = raise (status invalid_argument improper_source)
