-- ===== src/Controller/Create.antt =====
-- CreateVolume and smbVolToCSI of controllerserver.go.
pub mod Kept
pub mod Made
pub mod Done
use csi_driver_smb.Base.{
  Bool, true, false, not, ◌&&◌, ◌||◌, Option, none, some, List, [], ◌∷◌, if◌then◌else◌, is_empty,
}
use csi_driver_smb.Base.Int.{ℤ, pos}
use csi_driver_smb.Text.{Text}
use csi_driver_smb.Dict.{Dict, set_key_value_in_map}
use csi_driver_smb.Names.{sub_dir_field, file_mode, dir_mode, default_file_mode, default_dir_mode}
use csi_driver_smb.Result.{
  Reason, Status, status, invalid_argument, internal, aborted, name_missing, operation_exists,
  mount_server_failed, make_sub_dir_failed, capabilities_missing,
}
use csi_driver_smb.Exec.{pure, raise, lift, ◌>>=◌, ◌>>◌, wrap, finally, check, check_none}
use csi_driver_smb.World.{mkdir_all, Env, Run, perform}
use csi_driver_smb.Config.{Config}
use csi_driver_smb.Options.{has_guest_mount_options, append_mount_options}
use csi_driver_smb.Volume.Defs.{SmbVolume, internal_volume_path}
use csi_driver_smb.Volume.Params.{new_smb_volume}
use csi_driver_smb.Node.Context.{AccessType, mounted, VolumeCapability}
use csi_driver_smb.Node.Stage.{acquire_lock, release_lock}
use csi_driver_smb.Controller.Mount.{
  is_valid_volume_capabilities, ContentSource, mounted_for, copy_volume,
}

pub record CreateRequest : Type 0 where
  pub name : Text
  pub capabilities : List VolumeCapability
  pub required_bytes : ℤ
  pub parameters : Dict
  pub secrets : Dict
  pub content_source : Option ContentSource

-- csi.Volume
pub record CsiVolume : Type 0 where
  pub capacity_bytes : ℤ
  pub volume_id : Text
  pub volume_context : Dict
  pub content_source : Option ContentSource

-- the modes that are set where the mount flags leave them open
abbrev pub default_modes : Dict
default_modes = (file_mode, default_file_mode) ∷ (dir_mode, default_dir_mode) ∷ []

guest_mount : AccessType → Bool
guest_mount (mounted m) = has_guest_mount_options m.mount_flags
guest_mount _ = false

-- Whether a directory is to be made on the share for the volume.
unfoldable pub creates_sub_dir : Dict → SmbVolume → VolumeCapability → Bool
unfolding guest_mount
creates_sub_dir secrets vol capability =
    not (is_empty secrets) || (not (is_empty vol.uuid) || guest_mount capability.access_type)

abbrev dict_of : Option Dict → Dict
dict_of none = []
dict_of (some m) = m

module _ (env : Env) (cfg : Config) where
  with_default_modes : AccessType → AccessType
  with_default_modes (mounted m) =
      mounted
        (record m { mount_flags = append_mount_options m.mount_flags (env.visit default_modes) })
  with_default_modes t = t

  unfoldable pub capability_with_modes : VolumeCapability → VolumeCapability
  unfolding with_default_modes
  capability_with_modes c = record c { access_type = with_default_modes c.access_type }

  pub copy_content :
      CreateRequest
      → List VolumeCapability
      → SmbVolume
      → Option ContentSource
      → Run Status (Unit {0})
  copy_content req capabilities vol none = pure tt
  copy_content req capabilities vol (some s) = copy_volume env cfg s capabilities req.secrets vol

  pub make_sub_dir : CreateRequest → List VolumeCapability → SmbVolume → Run Status (Unit {0})
  unfolding copy_content
  make_sub_dir req capabilities vol = do
    e ← perform env (mkdir_all (internal_volume_path cfg.working_mount_dir vol))
    check_none e (status internal make_sub_dir_failed)
    copy_content req capabilities vol req.content_source

  unfoldable pub smb_vol_to_csi : SmbVolume → CreateRequest → Dict → CsiVolume
  smb_vol_to_csi vol req parameters = record {
    capacity_bytes = pos 0;
    volume_id = vol.id;
    volume_context = parameters;
    content_source = req.content_source;
  }

  -- what CreateVolume does under its lock; the capability is shared with the request, so copying
  -- sees its default modes too
  pub create_locked :
      CreateRequest → VolumeCapability → List VolumeCapability → SmbVolume → Run Status CsiVolume
  unfolding make_sub_dir smb_vol_to_csi capability_with_modes
  create_locked req first others vol =
      let capability = capability_with_modes first in
      if creates_sub_dir req.secrets vol first
      then (do
        mounted_for env cfg vol (some capability) req.secrets (status internal mount_server_failed)
            (make_sub_dir req (capability ∷ others) vol)
        pure (
            smb_vol_to_csi vol req (
              dict_of
                (set_key_value_in_map env.visit (some req.parameters) sub_dir_field vol.sub_dir))))
      else (do
        copy_content req (capability ∷ others) vol req.content_source
        pure (smb_vol_to_csi vol req req.parameters))

  pub create_with_lock : CreateRequest → List VolumeCapability → SmbVolume → Run Status CsiVolume
  unfolding create_locked acquire_lock release_lock
  create_with_lock req [] vol = raise (status invalid_argument capabilities_missing)
  create_with_lock req (first ∷ others) vol = do
    acquired ← acquire_lock req.name
    check acquired (status aborted operation_exists)
    finally (create_locked req first others vol) (release_lock {E = Status} req.name)

  unfoldable pub create_volume : CreateRequest → Run Status CsiVolume
  unfolding create_with_lock
  create_volume req = do
    check (not (is_empty req.name)) (status invalid_argument name_missing)
    wrap (λ r. status invalid_argument r) (lift (is_valid_volume_capabilities req.capabilities))
    vol ←
        wrap (λ r. status invalid_argument r)
          (lift (
            new_smb_volume env.visit req.name req.required_bytes req.parameters
              cfg.default_on_delete_policy))
    create_with_lock req req.capabilities vol
