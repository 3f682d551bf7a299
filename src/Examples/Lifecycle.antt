-- ===== src/Examples/Lifecycle.antt =====
-- A volume that is created and then deleted.
use csi_driver_smb.Base.{◌≡◌, refl, true, false, []}
use csi_driver_smb.Text.{equal_fold}
use csi_driver_smb.Names.{archive}
use csi_driver_smb.World.{done, mkdir_all, remove_all}
use csi_driver_smb.Invariant.{Happened}
use csi_driver_smb.Volume.Defs.{internal_volume_path}
use csi_driver_smb.Volume.Id.{kept_by_id}
use csi_driver_smb.Controller.Effects.{Succeeds}
use csi_driver_smb.Controller.Create.{create_volume}
use csi_driver_smb.Controller.Delete.{on_delete_policy, delete_volume}
use csi_driver_smb.Controller.Delete.Idle.{reaches_share}
use csi_driver_smb.Controller.Lifecycle.{delete_volume-create_volume}
use csi_driver_smb.Driver.{new_driver}
use csi_driver_smb.Examples.World.{
  quiet, linux, tmp_given, tmp_clear, delete_request, create_request, plain_mount,
}
use csi_driver_smb.Examples.Deletion.{
  new_volume, answer, volume_asked, creation_makes, creation_succeeds, clear_source, clear_sub_dir,
  clear_uuid, uuid_valid, deletion_succeeds,
}

reaches : reaches_share linux (kept_by_id new_volume) delete_request ≡ true
unfolding on_delete_policy equal_fold csi_driver_smb.Volume.Defs.on_delete_element
reaches = refl

no_archive : equal_fold (on_delete_policy [] (kept_by_id new_volume)) archive ≡ false
unfolding on_delete_policy equal_fold csi_driver_smb.Volume.Defs.on_delete_element
no_archive = refl

delete_volume-create_volume_example :
    let path = internal_volume_path linux.working_mount_dir new_volume in
    Happened
      (Succeeds (quiet done) (mkdir_all path))
      (mkdir_all path)
      []
      (create_volume (quiet done) linux create_request new_driver).1.trace
    × Happened
        (Succeeds (quiet done) (remove_all path))
        (remove_all path)
        []
        (delete_volume (quiet done) linux delete_request new_driver).1.trace
delete_volume-create_volume_example =
    delete_volume-create_volume (quiet done) linux tmp_given tmp_clear create_request new_volume
      plain_mount [] refl volume_asked creation_makes clear_source clear_sub_dir clear_uuid
      uuid_valid new_driver answer creation_succeeds delete_request new_driver refl reaches
      no_archive refl deletion_succeeds
