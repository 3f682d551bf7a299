-- ===== src/Controller/Delete.antt =====
-- DeleteVolume of controllerserver.go.
pub mod Kept
pub mod Idle
pub mod Policy
pub mod Done
use csi_driver_smb.Base.{
  Bool, true, false, not, ◌&&◌, Option, none, some, List, [], ◌∷◌, ◌++◌, if◌then◌else◌, is_empty,
}
use csi_driver_smb.Text.{Text, codes, equal_fold, contains}
use csi_driver_smb.Dict.{Dict, mount_options_of}
use csi_driver_smb.Names.{retain, archive}
use csi_driver_smb.Result.{
  Reason, Result, ok, err, Status, status, invalid_argument, internal, aborted, volume_id_missing,
  operation_exists, cache_failed, mount_server_failed, delete_archived_failed, archive_failed,
  make_parent_failed, delete_failed,
}
use csi_driver_smb.Exec.{pure, raise, lift, ◌>>=◌, ◌>>◌, wrap, finally, check, check_none}
use csi_driver_smb.FilePath.{join_path, dir}
use csi_driver_smb.World.{
  OsError, mkdir_all, remove_all, lstat, rename, chmod_tree, deletion_cache_get, deletion_cache_set,
  Env, Run, perform, perform_flag,
}
use csi_driver_smb.Config.{Config}
use csi_driver_smb.Options.{append_mount_options}
use csi_driver_smb.Volume.Defs.{
  SmbVolume, smb_vol_from_id, internal_mount_path, internal_volume_path,
}
use csi_driver_smb.Node.Context.{mounted, VolumeCapability}
use csi_driver_smb.Node.Stage.{acquire_lock, release_lock}
use csi_driver_smb.Controller.Mount.{mounted_for}
use csi_driver_smb.Controller.Create.{default_modes}

pub record DeleteRequest : Type 0 where
  pub volume_id : Text
  pub secrets : Dict

-- where an archived volume goes
unfoldable pub archived_path : Text → SmbVolume → Text
archived_path working_mount_dir vol =
    join_path (internal_mount_path working_mount_dir (some vol)) (codes "archived-" ++ vol.sub_dir)

-- the policy of the volume, or else the driver's
unfoldable pub on_delete_policy : Text → SmbVolume → Text
on_delete_policy default vol = if is_empty vol.on_delete then default else vol.on_delete

module _ (env : Env) (cfg : Config) where
  pub make_parent : SmbVolume → Run Status (Unit {0})
  make_parent vol =
      if contains vol.sub_dir (codes "/")
      then (do
        e ← perform env (mkdir_all (dir (archived_path cfg.working_mount_dir vol)))
        check_none e (status internal make_parent_failed))
      else pure tt

  -- an old archived copy is in the way
  pub remove_archived : SmbVolume → Run Status (Unit {0})
  remove_archived vol =
      if cfg.remove_archived_volume_path
      then (do
        e ← perform env (remove_all (archived_path cfg.working_mount_dir vol))
        check_none e (status internal delete_archived_failed))
      else pure tt

  archive_sub_dir : SmbVolume → Run Status (Unit {0})
  unfolding make_parent remove_archived
  archive_sub_dir vol = do
    make_parent vol
    remove_archived vol
    e ← perform env (
        rename (internal_volume_path cfg.working_mount_dir vol)
          (archived_path cfg.working_mount_dir vol))
    check_none e (status internal archive_failed)

  -- an error of the mode change is logged only
  pub open_modes : Text → Option OsError → Run Status (Unit {0})
  open_modes path none = do perform env (chmod_tree path); pure tt
  open_modes path (some _) = pure tt

  delete_sub_dir : SmbVolume → Run Status (Unit {0})
  unfolding open_modes
  delete_sub_dir vol = do
    let path = internal_volume_path cfg.working_mount_dir vol
    found ← perform env (lstat path)
    open_modes path found
    e ← perform env (remove_all path)
    check_none e (status internal delete_failed)

  pub record_deletion : Text → Run Status (Unit {0})
  record_deletion volume_id = do perform env (deletion_cache_set volume_id); pure tt

  unfoldable pub delete_capability : Dict → VolumeCapability
  delete_capability secrets = record {
    access_type = mounted (record {
      mount_flags =
          append_mount_options (mount_options_of env.visit secrets ∷ []) (env.visit default_modes);
      volume_mount_group = [];
    });
    access_mode = none;
  }

  -- the directory of the volume is archived or deleted on the mounted share
  pub dispose : SmbVolume → Text → DeleteRequest → Run Status (Unit {0})
  unfolding archive_sub_dir delete_sub_dir record_deletion
  dispose vol policy req =
      mounted_for env cfg vol (some (delete_capability req.secrets)) req.secrets
        (status internal mount_server_failed)
        (do
          if equal_fold policy archive then archive_sub_dir vol else delete_sub_dir vol
          record_deletion req.volume_id)

  delete_locked : SmbVolume → DeleteRequest → Run Status (Unit {0})
  unfolding dispose record_deletion
  delete_locked vol req =
      let policy = on_delete_policy cfg.default_on_delete_policy vol in
      if not (is_empty req.secrets) && not (equal_fold policy retain)
      then (do
        cached ← perform_flag env (deletion_cache_get req.volume_id)
        check_none cached.0 (status internal cache_failed)
        if cached.1 then pure tt else dispose vol policy req)
      else record_deletion req.volume_id

  -- an id that cannot be read stands for a volume that is not there
  delete_parsed : DeleteRequest → Result Reason SmbVolume → Run Status (Unit {0})
  unfolding delete_locked acquire_lock release_lock
  delete_parsed req (err _) = pure tt
  delete_parsed req (ok vol) = do
    acquired ← acquire_lock req.volume_id
    check acquired (status aborted operation_exists)
    finally (delete_locked vol req) (release_lock {E = Status} req.volume_id)

  unfoldable pub delete_volume : DeleteRequest → Run Status (Unit {0})
  unfolding delete_parsed
  delete_volume req = do
    check (not (is_empty req.volume_id)) (status invalid_argument volume_id_missing)
    delete_parsed req (smb_vol_from_id req.volume_id)
