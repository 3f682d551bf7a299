-- ===== src/Driver/Refusal.antt =====
-- Requests that meet a mount that is still running.
use csi_driver_smb.Base.{
  ◌≡◌, ◌↔◌, refl, sym, ◌∙◌, ap, Bool-cases, inl, inr, true, false, some, ◌∷◌, ◌++◌, is_empty,
}
use csi_driver_smb.Result.{err, status, aborted, operation_exists}
use csi_driver_smb.Exec.{check, lift, finally, ◌>>=◌}
use csi_driver_smb.World.{Env, InFlight, World}
use csi_driver_smb.Locks.{has, try_acquire}
use csi_driver_smb.Locks.Laws.{has-release}
use csi_driver_smb.Text.Search.{text_eq_refl}
use csi_driver_smb.Config.{Config}
use csi_driver_smb.Node.Context.{VolumeCapability, no_context, parse_context}
use csi_driver_smb.Node.Stage.{
  StageRequest, UnstageRequest, lock_key, acquire_lock, release_lock, end_in_flight, finish_mount,
  required, node_stage_volume, node_unstage_volume,
}
use csi_driver_smb.Node.Stage.Answer.{refused, node_stage_volume-refused}
use csi_driver_smb.Driver.{Reached}
use csi_driver_smb.Driver.Locking.{keys, locked-in_flight}

-- what NodeStageVolume asks of a request before it takes the lock
pub record IsStageable (env : Env) (req : StageRequest) : Type 0 where
  pub volume_id : is_empty req.volume_id ≡ false
  pub capability : VolumeCapability
  pub given : req.capability ≡ some capability
  pub target : is_empty req.staging_target_path ≡ false
  pub source : is_empty (parse_context no_context (env.visit req.volume_context)).source ≡ false

module _ (env : Env) (cfg : Config) where
  stage-locked :
      (req : StageRequest) (w : World)
      → IsStageable env req
      → has w.locks (lock_key req.volume_id req.staging_target_path) ≡ true
      → node_stage_volume env cfg req w ≡ (err (status aborted operation_exists), w)
  unfolding node_stage_volume check lift ◌>>=◌ required acquire_lock try_acquire
  stage-locked req w h e = rw (h.volume_id, h.given, h.target, h.source, e) refl

  unstage-locked :
      (req : UnstageRequest) (w : World)
      → is_empty req.volume_id ≡ false
      → is_empty req.staging_target_path ≡ false
      → has w.locks (lock_key req.volume_id req.staging_target_path) ≡ true
      → node_unstage_volume env cfg req w ≡ (err (status aborted operation_exists), w)
  unfolding node_unstage_volume check lift ◌>>=◌ acquire_lock try_acquire
  unstage-locked req w hi ht e = rw (hi, ht, e) refl

  -- A process answers a well-formed NodeStageVolume that another operation is going on exactly when a
  -- mount is still running under the key of the request, which is the id of the volume, a dash and the
  -- target.
  pub node_stage_volume-running :
      (req : StageRequest) (w : World)
      → Reached env cfg w
      → IsStageable env req
      → ((refused (node_stage_volume env cfg req w).0 ≡ true)
          ↔ (has (keys w.in_flight) (req.volume_id ++ b'-' ∷ req.staging_target_path) ≡ true))
  node_stage_volume-running req w r h =
      let k = lock_key req.volume_id req.staging_target_path in
      let same = (locked-in_flight env cfg w k r).0 in
      (
        λ e. sym same ∙ node_stage_volume-refused env cfg req w e,
        λ e. rw (stage-locked req w h (same ∙ e)) refl,
      )

  -- While a mount is still running, staging and unstaging the same volume at the same target are both
  -- answered that another operation is going on, and change nothing.
  pub stage_unstage-running :
      (req : StageRequest) (w : World)
      → Reached env cfg w
      → IsStageable env req
      → has (keys w.in_flight) (lock_key req.volume_id req.staging_target_path) ≡ true
      → (node_stage_volume env cfg req w ≡ (err (status aborted operation_exists), w))
        × (node_unstage_volume env cfg
              (record { volume_id = req.volume_id; staging_target_path = req.staging_target_path })
              w
            ≡ (err (status aborted operation_exists), w))
  stage_unstage-running req w r h e =
      let same =
        (locked-in_flight env cfg w (lock_key req.volume_id req.staging_target_path) r).0 ∙ e in
      (stage-locked req w h same, unstage-locked _ w h.volume_id h.target same)

  finish_mount-unlocked :
      (w : World) (f : InFlight) → has (finish_mount env cfg f w).1.locks f.lock_key ≡ false
  unfolding finish_mount finally release_lock end_in_flight ◌>>=◌
  finish_mount-unlocked w f = rw (has-release, text_eq_refl f.lock_key) refl

  -- Once a running mount has ended, its key is free, and staging the same volume at the same target is
  -- not answered that another operation is going on.
  pub finish_mount-free :
      (req : StageRequest) (w : World) (f : InFlight)
      → f.lock_key ≡ lock_key req.volume_id req.staging_target_path
      → (has (finish_mount env cfg f w).1.locks f.lock_key ≡ false)
        × (refused (node_stage_volume env cfg req (finish_mount env cfg f w).1).0 ≡ false)
  finish_mount-free req w f e =
      let free = finish_mount-unlocked w f in
      let w' = (finish_mount env cfg f w).1 in
      (
        free,
        elim (Bool-cases (refused (node_stage_volume env cfg req w').0)) [
          | inl h ↦
              (let busy : has w'.locks (lock_key req.volume_id req.staging_target_path) ≡ true =
                  node_stage_volume-refused env cfg req w' h in
                cc (ap (has w'.locks) e))
          | inr h ↦ h
        ],
      )
