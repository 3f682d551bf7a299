-- ===== src/Examples/Deletion.antt =====
-- Creating and deleting volumes on concrete inputs.
use csi_driver_smb.Base.{◌≡◌, refl, true, false, ◌||◌, none, [], if◌then◌else◌, ◌==◌}
use csi_driver_smb.Base.Int.{pos}
use csi_driver_smb.Text.{Text, codes, text_eq, equal_fold}
use csi_driver_smb.Text.Parts.{Lacks}
use csi_driver_smb.Result.{ok}
use csi_driver_smb.Names.{retain, archive}
use csi_driver_smb.World.{done, deletion_cache_get, deletion_cache_set, Env, World}
use csi_driver_smb.Locks.{has}
use csi_driver_smb.Invariant.{Happened}
use csi_driver_smb.Volume.Defs.{
  SmbVolume, smb_vol_from_id, volume_id_from_smb_vol, validate_path, internal_volume_path,
}
use csi_driver_smb.Volume.Params.{new_smb_volume}
use csi_driver_smb.Volume.Id.{kept_by_id}
use csi_driver_smb.Volume.Agreement.{IsNew, new_smb_volume-IsNew}
use csi_driver_smb.Controller.Effects.{Succeeds}
use csi_driver_smb.Controller.Create.{CsiVolume, creates_sub_dir, create_volume}
use csi_driver_smb.Controller.Create.Made.{create_volume-smb_vol_from_id}
use csi_driver_smb.Controller.Delete.{DeleteRequest, on_delete_policy, delete_volume}
use csi_driver_smb.Controller.Delete.Idle.{reaches_share}
use csi_driver_smb.Controller.Delete.Done.{purpose, delete_volume-Happened}
use csi_driver_smb.Controller.Delete.Policy.{on_delete_policy-smb_vol_from_id}
use csi_driver_smb.Driver.{new_driver}
use csi_driver_smb.Examples.World.{
  quiet, linux, tmp_given, tmp_clear, delete_request, create_request, plain_mount,
}

-- what the id of `delete_request` stands for
abbrev read_volume : SmbVolume
read_volume = record {
  id = delete_request.volume_id;
  source = codes "//server/share";
  sub_dir = codes "data";
  size = pos 0;
  uuid = codes "pv1";
  on_delete = [];
}

request_read : smb_vol_from_id delete_request.volume_id ≡ ok read_volume
unfolding smb_vol_from_id csi_driver_smb.Text.split validate_path csi_driver_smb.Text.fields_func
    text_eq csi_driver_smb.Text.has_prefix
request_read = refl

request_reaches : reaches_share linux read_volume delete_request ≡ true
unfolding on_delete_policy equal_fold
request_reaches = refl

pub deletion_succeeds : (delete_volume (quiet done) linux delete_request new_driver).0 ≡ ok tt
unfolding delete_volume csi_driver_smb.Exec.◌>>=◌ csi_driver_smb.Exec.check smb_vol_from_id
    csi_driver_smb.Text.split validate_path csi_driver_smb.Text.fields_func text_eq
    csi_driver_smb.Locks.try_acquire csi_driver_smb.Exec.finally equal_fold on_delete_policy
    csi_driver_smb.World.perform_flag csi_driver_smb.Exec.check_none
    csi_driver_smb.Controller.Mount.mounted_for csi_driver_smb.Exec.wrap
    csi_driver_smb.Node.Stage.node_stage_volume csi_driver_smb.Node.Stage.required
    csi_driver_smb.Volume.Defs.internal_mount_path csi_driver_smb.FilePath.join_path
    csi_driver_smb.Node.Context.parse_context csi_driver_smb.Node.Kerberos.ensure_kerberos_cache
    csi_driver_smb.Options.has_kerberos_mount_option
    csi_driver_smb.Controller.Delete.delete_capability csi_driver_smb.Options.append_mount_options
    csi_driver_smb.Dict.mount_options_of csi_driver_smb.World.perform
    csi_driver_smb.Node.Context.linux_options csi_driver_smb.Options.has_guest_mount_options
    csi_driver_smb.Options.credential_options csi_driver_smb.Options.contains_special_character
    csi_driver_smb.Text.contains csi_driver_smb.Node.Context.parse_secrets
    csi_driver_smb.Text.trim_space csi_driver_smb.Locks.has csi_driver_smb.Text.to_lower
    csi_driver_smb.Node.Mounter.ensure_mount_point csi_driver_smb.World.perform_texts
    csi_driver_smb.World.check_os csi_driver_smb.World.perform_text
    csi_driver_smb.Node.Mounter.prepare_path csi_driver_smb.World.perform_wait
    csi_driver_smb.Node.Mounter.mount_volume csi_driver_smb.Options.needs_credentials_option
    create_volume csi_driver_smb.Controller.Mount.is_valid_volume_capabilities new_smb_volume
    csi_driver_smb.Volume.Defs.validate_on_delete_value csi_driver_smb.Dict.replace_with_map
    csi_driver_smb.Volume.Params.metadata_dict creates_sub_dir
    csi_driver_smb.Volume.Defs.volume_id_from_smb_vol csi_driver_smb.Text.join
    csi_driver_smb.Text.trim
deletion_succeeds = refl

delete_volume-Happened_example :
    Happened
      (Succeeds (quiet done) (purpose linux read_volume (on_delete_policy [] read_volume)))
      (purpose linux read_volume (on_delete_policy [] read_volume))
      []
      (delete_volume (quiet done) linux delete_request new_driver).1.trace
delete_volume-Happened_example =
    delete_volume-Happened (quiet done) linux delete_request new_driver read_volume request_read
      request_reaches refl deletion_succeeds

-- a request for a volume without secrets
abbrev bare_request : DeleteRequest
bare_request = record { volume_id = delete_request.volume_id; secrets = [] }

nothing_locked : has new_driver.locks delete_request.volume_id ≡ false
unfolding has
nothing_locked = refl

-- the volume of `create_request`
abbrev pub new_volume : SmbVolume
new_volume = record {
  id = codes "server/share#data#pv1#";
  source = codes "//server/share";
  sub_dir = codes "/data/";
  size = pos 0;
  uuid = codes "pv1";
  on_delete = [];
}

pub volume_asked :
    new_smb_volume
      (λ m. m)
      create_request.name
      create_request.required_bytes
      create_request.parameters
      []
    ≡ ok new_volume
unfolding new_smb_volume text_eq csi_driver_smb.Text.to_lower
    csi_driver_smb.Volume.Defs.validate_on_delete_value equal_fold validate_path
    csi_driver_smb.Text.fields_func csi_driver_smb.Dict.replace_with_map
    csi_driver_smb.Volume.Params.metadata_dict csi_driver_smb.Volume.Defs.volume_id_from_smb_vol
    csi_driver_smb.Text.join csi_driver_smb.Text.trim
volume_asked = refl

new_smb_volume-IsNew_example : IsNew new_volume
new_smb_volume-IsNew_example =
    new_smb_volume-IsNew (λ m. m) create_request.name create_request.required_bytes
      create_request.parameters [] new_volume volume_asked

abbrev pub answer : CsiVolume
answer = record {
  capacity_bytes = pos 0;
  volume_id = new_volume.id;
  volume_context = create_request.parameters;
  content_source = none;
}

pub creation_succeeds : (create_volume (quiet done) linux create_request new_driver).0 ≡ ok answer
unfolding create_volume csi_driver_smb.Exec.◌>>=◌ csi_driver_smb.Exec.check csi_driver_smb.Exec.wrap
    csi_driver_smb.Controller.Mount.is_valid_volume_capabilities new_smb_volume text_eq
    csi_driver_smb.Text.to_lower csi_driver_smb.Volume.Defs.validate_on_delete_value equal_fold
    validate_path csi_driver_smb.Text.fields_func csi_driver_smb.Dict.replace_with_map
    csi_driver_smb.Volume.Params.metadata_dict csi_driver_smb.Locks.try_acquire
    csi_driver_smb.Exec.finally creates_sub_dir csi_driver_smb.Controller.Mount.mounted_for
    csi_driver_smb.Node.Stage.node_stage_volume csi_driver_smb.Volume.Defs.volume_id_from_smb_vol
    csi_driver_smb.Text.join csi_driver_smb.Text.trim csi_driver_smb.Node.Stage.required
    csi_driver_smb.Volume.Defs.internal_mount_path csi_driver_smb.FilePath.join_path
    csi_driver_smb.Node.Context.parse_context csi_driver_smb.Node.Kerberos.ensure_kerberos_cache
    csi_driver_smb.Options.has_guest_mount_options csi_driver_smb.Options.credential_options
    csi_driver_smb.Options.contains_special_character csi_driver_smb.Text.contains
    csi_driver_smb.Node.Context.parse_secrets csi_driver_smb.Text.trim_space
    csi_driver_smb.Dict.set_key_value_in_map csi_driver_smb.Locks.has
    csi_driver_smb.Options.has_kerberos_mount_option csi_driver_smb.World.perform
    csi_driver_smb.Exec.check_none csi_driver_smb.Node.Mounter.ensure_mount_point
    csi_driver_smb.World.perform_flag csi_driver_smb.World.perform_texts
    csi_driver_smb.World.check_os csi_driver_smb.World.perform_text
    csi_driver_smb.Node.Mounter.prepare_path csi_driver_smb.World.perform_wait
    csi_driver_smb.Node.Mounter.mount_volume csi_driver_smb.Options.needs_credentials_option
    csi_driver_smb.Options.append_mount_options csi_driver_smb.Node.Context.linux_options
creation_succeeds = refl

pub creation_makes : creates_sub_dir create_request.secrets new_volume plain_mount ≡ true
unfolding creates_sub_dir
creation_makes = refl

pub clear_source : Lacks (λ c. c == b'#') new_volume.source
clear_source = search

pub clear_sub_dir : Lacks (λ c. c == b'#') new_volume.sub_dir
clear_sub_dir = search

pub clear_uuid : Lacks (λ c. c == b'#') new_volume.uuid
clear_uuid = search

pub uuid_valid : validate_path new_volume.uuid ≡ ok tt
unfolding validate_path csi_driver_smb.Text.fields_func text_eq
uuid_valid = refl

create_volume-smb_vol_from_id_example :
    (smb_vol_from_id answer.volume_id ≡ ok (kept_by_id new_volume))
    × (internal_volume_path linux.working_mount_dir (kept_by_id new_volume)
        ≡ internal_volume_path linux.working_mount_dir new_volume)
create_volume-smb_vol_from_id_example =
    create_volume-smb_vol_from_id (quiet done) linux create_request tmp_given tmp_clear new_volume
      volume_asked clear_source clear_sub_dir clear_uuid uuid_valid new_driver answer
      creation_succeeds

sub_dir_valid : validate_path new_volume.sub_dir ≡ ok tt
unfolding validate_path csi_driver_smb.Text.fields_func text_eq
sub_dir_valid = refl

-- a volume that was created with the policy delete
abbrev to_delete : SmbVolume
to_delete = record new_volume { on_delete = codes "delete" }

on_delete_policy-smb_vol_from_id_example :
    (read : SmbVolume) × (smb_vol_from_id (volume_id_from_smb_vol to_delete) ≡ ok read)
    × (on_delete_policy retain read ≡ (
        if equal_fold (codes "delete") retain || equal_fold (codes "delete") archive
        then codes "delete"
        else retain))
on_delete_policy-smb_vol_from_id_example =
    on_delete_policy-smb_vol_from_id retain to_delete clear_source clear_sub_dir clear_uuid
      sub_dir_valid uuid_valid
