-- ===== src/Controller/Lifecycle.antt =====
-- A volume from its creation to its deletion.
use csi_driver_smb.Base.{◌≡◌, ◌≢◌, refl, ◌∙◌, ap, subst, true, false, List, [], ◌∷◌}
use csi_driver_smb.Text.{Text, equal_fold}
use csi_driver_smb.Result.{ok}
use csi_driver_smb.Names.{archive}
use csi_driver_smb.World.{Env, World, mkdir_all, remove_all, deletion_cache_get}
use csi_driver_smb.Config.{Config}
use csi_driver_smb.Invariant.{Happened}
use csi_driver_smb.FilePath.Elements.{NoDots}
use csi_driver_smb.Volume.Defs.{SmbVolume, smb_vol_from_id, validate_path, internal_volume_path}
use csi_driver_smb.Volume.Params.{new_smb_volume}
use csi_driver_smb.Volume.Id.{NoHash, kept_by_id}
use csi_driver_smb.Node.Context.{VolumeCapability}
use csi_driver_smb.Controller.Effects.{Succeeds}
use csi_driver_smb.Controller.Create.{CreateRequest, CsiVolume, creates_sub_dir, create_volume}
use csi_driver_smb.Controller.Create.Done.{create_volume-Happened}
use csi_driver_smb.Controller.Create.Made.{create_volume-smb_vol_from_id}
use csi_driver_smb.Controller.Delete.{DeleteRequest, on_delete_policy, delete_volume}
use csi_driver_smb.Controller.Delete.Idle.{reaches_share}
use csi_driver_smb.Controller.Delete.Done.{purpose, delete_volume-Happened}

module _ (env : Env) (cfg : Config) where
  purpose-remove_all :
      (vol : SmbVolume) (policy : Text)
      → equal_fold policy archive ≡ false
      → purpose cfg vol policy ≡ remove_all (internal_volume_path cfg.working_mount_dir vol)
  purpose-remove_all vol policy h = rw h refl

  -- A creation that is to make a directory for its volume, and a later deletion of the volume by the id
  -- in its answer, both answered with success: the first made the directory that the second removed, if
  -- the policy is not to archive it. Between them other things may have happened; the volume has a
  -- source, a subdirectory and a uuid without `#`, and neither its uuid nor the working directory, which
  -- is given, holds `..`; the deletion has secrets, its policy is not to retain the volume, and the cache
  -- of deletions does not know it.
  pub delete_volume-create_volume :
      cfg.working_mount_dir ≢ []
      → NoDots cfg.working_mount_dir
      → (create : CreateRequest) (vol : SmbVolume) (c : VolumeCapability)
        (cs : List VolumeCapability)
      → create.capabilities ≡ c ∷ cs
      → new_smb_volume env.visit create.name create.required_bytes create.parameters
          cfg.default_on_delete_policy
        ≡ ok vol
      → creates_sub_dir create.secrets vol c ≡ true
      → NoHash vol.source
      → NoHash vol.sub_dir
      → NoHash vol.uuid
      → validate_path vol.uuid ≡ ok tt
      → (w : World) (csi : CsiVolume) → (create_volume env cfg create w).0 ≡ ok csi
      → (delete : DeleteRequest) (later : World) → delete.volume_id ≡ csi.volume_id
      → reaches_share cfg (kept_by_id vol) delete ≡ true
      → equal_fold (on_delete_policy cfg.default_on_delete_policy (kept_by_id vol)) archive ≡ false
      → env.flag later.trace (deletion_cache_get delete.volume_id) ≡ false
      → (delete_volume env cfg delete later).0 ≡ ok tt
      → let path = internal_volume_path cfg.working_mount_dir vol in
        Happened
          (Succeeds env (mkdir_all path))
          (mkdir_all path)
          w.trace
          (create_volume env cfg create w).1.trace
        × Happened
            (Succeeds env (remove_all path))
            (remove_all path)
            later.trace
            (delete_volume env cfg delete later).1.trace
  delete_volume-create_volume given clear create vol c cs caps asked makes hs hd hu vu w csi
        answered delete later same reaches policy missed deleted =
      let (read, path) =
        create_volume-smb_vol_from_id env cfg create given clear vol asked hs hd hu vu w csi
          answered in
      let kept = on_delete_policy cfg.default_on_delete_policy (kept_by_id vol) in
      let (since, mid, made, (succeeds, _)) =
        create_volume-Happened env cfg create w vol csi c cs caps asked makes answered in
      let goal = purpose-remove_all (kept_by_id vol) kept policy ∙ ap remove_all path in
      (
        (since, mid, made, succeeds),
        subst
            (λ call.
              Happened (Succeeds env call) call later.trace
                (delete_volume env cfg delete later).1.trace)
            goal
            (delete_volume-Happened env cfg delete later (kept_by_id vol)
              (ap smb_vol_from_id same ∙ read) reaches missed deleted),
      )
