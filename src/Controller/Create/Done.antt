-- ===== src/Controller/Create/Done.antt =====
-- Creations that succeed have made the directory.
use csi_driver_smb.Base.{◌≡◌, refl, sym, subst, true, some, List, [], ◌∷◌, ◌++◌, append_assoc}
use csi_driver_smb.Result.{ok}
use csi_driver_smb.Exec.Keeps.{Keeps-pure, Keeps-wrap, Keeps-check, Keeps-lift}
use csi_driver_smb.Exec.Ensures.{
  Reaches-ok, Ensures, Ensures-first, Ensures-bind_ok, Ensures-then, Ensures-finally, Ensures-both,
  Ensures-wrap,
}
use csi_driver_smb.World.{Call, Trace, mkdir_all, Env, World}
use csi_driver_smb.Config.{Config}
use csi_driver_smb.Invariant.{Closed, Closed-trace, Extends, Happened, Happened-grows}
use csi_driver_smb.Names.{source_field}
use csi_driver_smb.Node.Context.{VolumeCapability, no_context, parse_context}
use csi_driver_smb.Node.Stage.{acquire_lock, release_lock, stage_source}
use csi_driver_smb.Node.Stage.Shown.{Ensures-node_stage_volume}
use csi_driver_smb.Node.Mounter.Shown.{Shown}
use csi_driver_smb.Node.Stage.Kept.{Keeps-node_unstage_volume}
use csi_driver_smb.Volume.Defs.{SmbVolume, internal_mount_path, internal_volume_path}
use csi_driver_smb.Volume.Params.{new_smb_volume}
use csi_driver_smb.Controller.Effects.{Succeeds, Started, Ensures-call_after}
use csi_driver_smb.Controller.Mount.{mounted_for, internal_mount, internal_unmount}
use csi_driver_smb.Controller.Create.{
  CreateRequest, CsiVolume, creates_sub_dir, make_sub_dir, create_locked, create_with_lock,
  create_volume,
}
use csi_driver_smb.Controller.Create.Kept.{Keeps-copy_content}

module _ (env : Env) (cfg : Config) (start : Trace) (vol : SmbVolume) where
  -- the mount point of the volume shows the share of the volume
  abbrev pub OnShare : Trace → Type 0
  OnShare tr =
      Shown env
        (stage_source env cfg
          (parse_context no_context (env.visit ((source_field, vol.source) ∷ []))))
        (internal_mount_path cfg.working_mount_dir (some vol)) start tr

  OnShare-Extends : (tr : Trace) → OnShare tr → Extends start tr
  OnShare-Extends tr (c, (later, mid, e, _)) = (later ++ c ∷ mid, rw append_assoc e)

module _ (env : Env) (cfg : Config) (start : Trace) (req : CreateRequest) (vol : SmbVolume) where
  abbrev directory_made : Call
  directory_made = mkdir_all (internal_volume_path cfg.working_mount_dir vol)

  abbrev MadeOnShare : Trace → Type 0
  MadeOnShare =
      Happened (λ tr. Succeeds env directory_made tr × OnShare env cfg start vol tr) directory_made
        start

  Closed-MadeOnShare : Closed cfg (λ held w. MadeOnShare w.trace)
  Closed-MadeOnShare = Closed-trace cfg MadeOnShare (
      Happened-grows (λ tr. Succeeds env directory_made tr × OnShare env cfg start vol tr)
        directory_made start)

  Ensures-make_sub_dir :
      (cs : List VolumeCapability)
      → Ensures
          (λ w. OnShare env cfg start vol w.trace)
          (λ w. MadeOnShare w.trace)
          (make_sub_dir env cfg req cs vol)
  unfolding make_sub_dir
  Ensures-make_sub_dir cs =
      Ensures-call_after env start directory_made _ _ (OnShare env cfg start vol)
        (OnShare-Extends env cfg start vol)
        (Keeps-copy_content env cfg Closed-MadeOnShare [] req cs vol req.content_source)

  Ensures-create_locked :
      (c : VolumeCapability) (cs : List VolumeCapability)
      → creates_sub_dir req.secrets vol c ≡ true
      → Ensures (Started start) (λ w. MadeOnShare w.trace) (create_locked env cfg req c cs vol)
  unfolding create_locked mounted_for internal_mount internal_unmount
  Ensures-create_locked c cs creates = rw creates (
      Ensures-first _ _
        (Ensures-both _ _ (Ensures-wrap _ _ (Ensures-node_stage_volume env cfg start _)) λ _.
          Ensures-finally _ _ (Ensures-make_sub_dir _) (
            Keeps-node_unstage_volume env cfg Closed-MadeOnShare.guarded [] _
              (Closed-MadeOnShare.unmounted _)))
        λ _. Keeps-pure _)

  Ensures-create_with_lock :
      (c : VolumeCapability) (cs : List VolumeCapability)
      → creates_sub_dir req.secrets vol c ≡ true
      → Ensures
          (Started start)
          (λ w. MadeOnShare w.trace)
          (create_with_lock env cfg req (c ∷ cs) vol)
  unfolding create_with_lock acquire_lock release_lock
  Ensures-create_with_lock c cs creates =
      Ensures-then _ _ (record { after = λ w h. h })
        λ acquired. Ensures-then _ _ (Keeps-check _ _) λ _.
          Ensures-finally _ _ (Ensures-create_locked c cs creates) (record { after = λ w h. h })

  Ensures-create_volume :
      (c : VolumeCapability) (cs : List VolumeCapability)
      → req.capabilities ≡ c ∷ cs
      → new_smb_volume env.visit req.name req.required_bytes req.parameters
          cfg.default_on_delete_policy
        ≡ ok vol
      → creates_sub_dir req.secrets vol c ≡ true
      → Ensures (Started start) (λ w. MadeOnShare w.trace) (create_volume env cfg req)
  unfolding create_volume
  Ensures-create_volume c cs given asked creates = Ensures-then _ _ (Keeps-check _ _) λ _.
      Ensures-then _ _ (Keeps-wrap _ _ (Keeps-lift _)) λ _. Ensures-bind_ok _ _ vol _ asked (
        subst
          (λ l.
            Ensures (Started start) (λ w. MadeOnShare w.trace) (create_with_lock env cfg req l vol))
          (sym given) (Ensures-create_with_lock c cs creates))

pub create_volume-Happened :
    (env : Env) (cfg : Config) (req : CreateRequest) (w : World) (vol : SmbVolume) (csi : CsiVolume)
    (c : VolumeCapability) (cs : List VolumeCapability)
    → req.capabilities ≡ c ∷ cs
    → new_smb_volume env.visit req.name req.required_bytes req.parameters
        cfg.default_on_delete_policy
      ≡ ok vol
    → creates_sub_dir req.secrets vol c ≡ true
    → (create_volume env cfg req w).0 ≡ ok csi
    → Happened
        (λ tr.
          Succeeds env (mkdir_all (internal_volume_path cfg.working_mount_dir vol)) tr
          × OnShare env cfg w.trace vol tr)
        (mkdir_all (internal_volume_path cfg.working_mount_dir vol))
        w.trace
        (create_volume env cfg req w).1.trace
create_volume-Happened env cfg req w vol csi c cs given asked creates answered =
    Reaches-ok _ (create_volume env cfg req w).0 _ csi answered
      ((Ensures-create_volume env cfg w.trace req vol c cs given asked creates).after w ([], refl))
