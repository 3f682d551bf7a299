-- ===== src/Controller/Delete/Done.antt =====
-- Deletions that succeed have done their work.
use csi_driver_smb.Base.{
  ◌≡◌, refl, inl, inr, Option-cases, Bool-cases, true, false, [], ◌∷◌, if◌then◌else◌,
}
use csi_driver_smb.Text.{Text, equal_fold}
use csi_driver_smb.Names.{archive}
use csi_driver_smb.Result.{ok}
use csi_driver_smb.Exec.{pure, raise, check_none, ◌>>=◌}
use csi_driver_smb.Exec.Keeps.{Keeps-wrap, Keeps-check}
use csi_driver_smb.Exec.Ensures.{Reaches-ok, Ensures, Ensures-first, Ensures-then, Ensures-finally}
use csi_driver_smb.World.{
  Call, Trace, remove_all, rename, deletion_cache_get, Env, World, perform_flag,
}
use csi_driver_smb.Config.{Config}
use csi_driver_smb.Invariant.{Extends, Extends-grows, Happened, Happened-grows, Keeps-perform}
use csi_driver_smb.Node.Stage.{acquire_lock, release_lock}
use csi_driver_smb.Node.Stage.Kept.{Keeps-node_stage_volume, Keeps-node_unstage_volume}
use csi_driver_smb.Volume.Defs.{SmbVolume, smb_vol_from_id, internal_volume_path}
use csi_driver_smb.Controller.Effects.{
  Succeeds, Started, Made, Ensures-call, Closed-Started, Closed-Made,
}
use csi_driver_smb.Controller.Mount.{mounted_for, internal_mount, internal_unmount}
use csi_driver_smb.Controller.Delete.{
  DeleteRequest, archived_path, on_delete_policy, archive_sub_dir, delete_sub_dir, dispose,
  delete_locked, delete_parsed, delete_volume,
}
use csi_driver_smb.Controller.Delete.Kept.{
  Keeps-make_parent, Keeps-remove_archived, Keeps-open_modes, Keeps-record_deletion, Bears,
  Bears-trace,
}
use csi_driver_smb.Controller.Delete.Idle.{reaches_share}

-- the call that a deletion is for
abbrev pub purpose : Config → SmbVolume → Text → Call
purpose cfg vol policy =
    if equal_fold policy archive
    then rename (internal_volume_path cfg.working_mount_dir vol)
        (archived_path cfg.working_mount_dir vol)
    else remove_all (internal_volume_path cfg.working_mount_dir vol)

module _ (env : Env) (cfg : Config) (start : Trace) (vol : SmbVolume) where
  bears : Bears cfg (λ held w. Started start w) vol
  bears = Bears-trace cfg (Extends start) vol (Extends-grows start)

  Ensures-delete_sub_dir :
      Ensures
        (Started start)
        (Made env start (remove_all (internal_volume_path cfg.working_mount_dir vol)))
        (delete_sub_dir env cfg vol)
  unfolding delete_sub_dir
  Ensures-delete_sub_dir =
      Ensures-then _ _ (Keeps-perform env _ λ w h. Extends-grows start _ w.trace h) λ found.
        Ensures-then _ _ (Keeps-open_modes env cfg (Closed-Started cfg start) vol bears [] _ found)
          λ _. Ensures-call env start _ _

  Ensures-archive_sub_dir :
      Ensures
        (Started start)
        (Made env start (
          rename
            (internal_volume_path cfg.working_mount_dir vol)
            (archived_path cfg.working_mount_dir vol)))
        (archive_sub_dir env cfg vol)
  unfolding archive_sub_dir
  Ensures-archive_sub_dir =
      Ensures-then _ _ (Keeps-make_parent env cfg (Closed-Started cfg start) vol bears []) λ _.
        Ensures-then _ _ (Keeps-remove_archived env cfg (Closed-Started cfg start) vol bears [])
          λ _. Ensures-call env start _ _

  Ensures-work :
      (policy : Text)
      → Ensures (Started start) (Made env start (purpose cfg vol policy)) (
          if equal_fold policy archive
          then archive_sub_dir env cfg vol
          else delete_sub_dir env cfg vol)
  Ensures-work policy = elim (Bool-cases (equal_fold policy archive)) [
    | inl e ↦ rw e Ensures-archive_sub_dir
    | inr e ↦ rw e Ensures-delete_sub_dir
  ]

  Ensures-dispose :
      (policy : Text) (req : DeleteRequest)
      → Ensures
          (Started start)
          (Made env start (purpose cfg vol policy))
          (dispose env cfg vol policy req)
  unfolding dispose mounted_for internal_mount internal_unmount
  Ensures-dispose policy req =
      let bearsMade =
        Bears-trace cfg
          (Happened (Succeeds env (purpose cfg vol policy)) (purpose cfg vol policy) start) vol
          (Happened-grows (Succeeds env (purpose cfg vol policy)) (purpose cfg vol policy) start) in
      Ensures-then _ _
        (Keeps-wrap _ _ (Keeps-node_stage_volume env cfg (Closed-Started cfg start).guarded [] _))
        λ _.
          Ensures-finally _ _
            (Ensures-first _ _ (Ensures-work policy) λ _.
              Keeps-record_deletion env cfg (Closed-Made env cfg start (purpose cfg vol policy)) vol
                bearsMade [] req.volume_id)
            (let made = Closed-Made env cfg start (purpose cfg vol policy) in
              Keeps-node_unstage_volume env cfg made.guarded [] _ (made.unmounted _))

  -- the policy that a deletion follows
  abbrev policy_of : Text
  policy_of = on_delete_policy cfg.default_on_delete_policy vol

  module _ (req : DeleteRequest) (reaches : reaches_share cfg vol req ≡ true)
      (missed : env.flag start (deletion_cache_get req.volume_id) ≡ false) where
    Ensures-delete_locked :
        Ensures
          (λ w. w.trace ≡ start)
          (Made env start (purpose cfg vol policy_of))
          (delete_locked env cfg vol req)
    unfolding delete_locked perform_flag check_none ◌>>=◌ pure raise
    Ensures-delete_locked = record {
      after = λ w e. elim (Option-cases (env.error start (deletion_cache_get req.volume_id))) [
        | inl h ↦
            rw (reaches, e, h, missed)
              ((Ensures-dispose policy_of req).after
                (record w { trace = deletion_cache_get req.volume_id ∷ start })
                (deletion_cache_get req.volume_id ∷ [], refl))
        | inr (x, h) ↦ rw (reaches, e, h) tt
      ];
    }

    Ensures-delete_parsed :
        Ensures
          (λ w. w.trace ≡ start)
          (Made env start (purpose cfg vol policy_of))
          (delete_parsed env cfg req (ok vol))
    unfolding delete_parsed acquire_lock release_lock
    Ensures-delete_parsed =
        Ensures-then _ _ (record { after = λ w h. h })
          λ acquired.
            Ensures-then _ _ (Keeps-check _ _)
              λ _. Ensures-finally _ _ Ensures-delete_locked (record { after = λ w h. h })

    Ensures-delete_volume :
        smb_vol_from_id req.volume_id ≡ ok vol
        → Ensures
            (λ w. w.trace ≡ start)
            (Made env start (purpose cfg vol policy_of))
            (delete_volume env cfg req)
    unfolding delete_volume
    Ensures-delete_volume read =
        rw read (Ensures-then _ _ (Keeps-check _ _) λ _. Ensures-delete_parsed)

-- A deletion that reaches the share, that the cache of deletions does not know, and that is answered
-- with success, has in its time made the call it is for, and the call succeeded: the removal of the
-- volume's directory, or its move to the archive if that is the policy.
pub delete_volume-Happened :
    (env : Env) (cfg : Config) (req : DeleteRequest) (w : World) (vol : SmbVolume)
    → smb_vol_from_id req.volume_id ≡ ok vol
    → reaches_share cfg vol req ≡ true
    → env.flag w.trace (deletion_cache_get req.volume_id) ≡ false
    → (delete_volume env cfg req w).0 ≡ ok tt
    → Happened
        (Succeeds env (purpose cfg vol (on_delete_policy cfg.default_on_delete_policy vol)))
        (purpose cfg vol (on_delete_policy cfg.default_on_delete_policy vol))
        w.trace
        (delete_volume env cfg req w).1.trace
delete_volume-Happened env cfg req w vol read reaches missed answered =
    Reaches-ok _ (delete_volume env cfg req w).0 _ tt answered
      ((Ensures-delete_volume env cfg w.trace vol req reaches missed read).after w refl)
