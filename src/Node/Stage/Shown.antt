-- ===== src/Node/Stage/Shown.antt =====
-- A NodeStageVolume that succeeds has the share mounted.
use csi_driver_smb.Base.{
  ◌≡◌, ◌⊎◌, refl, ◌∙◌, ap, subst, inl, inr, Bool-cases, none, some, [], ◌∷◌, ◌++◌, append_assoc,
  if◌then◌else◌,
}
use csi_driver_smb.Text.{Text, codes}
use csi_driver_smb.Result.{Result, ok, err}
use csi_driver_smb.Exec.{pure, raise, wrap, ◌>>=◌}
use csi_driver_smb.Exec.Keeps.{Keeps-check, Keeps-lift, Keeps-wrap}
use csi_driver_smb.Exec.Ensures.{
  Reaches, Ensures, Ensures-raise, Ensures-then, Ensures-wrap, Ensures-wrap_then,
}
use csi_driver_smb.World.{
  OsError, end_of_file, Wait, done, timed_out, deadline, await_mount, read_dir_first, open_dir,
  Trace, Env, InFlight, World, Run,
}
use csi_driver_smb.Config.{Config}
use csi_driver_smb.Invariant.{Closed, Closed-trace, Extends, Extends-grows, Keeps-perform_wait}
use csi_driver_smb.Node.Context.{
  VolumeCapability, StageContext, no_context, parse_context, MountOptions,
}
use csi_driver_smb.Node.Mounter.{ensure_mount_point}
use csi_driver_smb.Node.Mounter.Kept.{Keeps-ensure_mount_point, Keeps-prepare_path}
use csi_driver_smb.Node.Mounter.Ready.{Read, ensure_mount_point-Read}
use csi_driver_smb.Node.Mounter.Shown.{before, Shown, Since, IsShown, Ensures-mount_volume}
use csi_driver_smb.Node.Stage.{
  StageRequest, StageFailure, settle, release_unless_kept, acquire_lock, release_lock,
  start_in_flight, after_wait, mount_with_timeout, mount_new, stage_source, stage_locked,
  node_stage_volume,
}
use csi_driver_smb.Node.Stage.Kept.{Keeps-stage_credentials, Keeps-stage_options}

module _ (env : Env) (cfg : Config) (start : Trace) where
  since : Closed cfg (λ held. Since start)
  since = Closed-trace cfg (Extends start) (Extends-grows start)

  Ensures-after_wait :
      (f : InFlight) (s : Wait)
      → Ensures (Since start) (IsShown env start f.source f.target) (after_wait env cfg f s)
  unfolding after_wait
  Ensures-after_wait f done = Ensures-wrap _ _ (
      Ensures-mount_volume env start f.source f.target cfg.windows (codes "cifs") f.options
        f.sensitive f.volume_id)
  Ensures-after_wait f timed_out =
      Ensures-then _ _ (unfold start_in_flight in record { after = λ w h. h }) λ _. Ensures-raise _
  Ensures-after_wait f deadline =
      Ensures-then _ _ (unfold start_in_flight in record { after = λ w h. h }) λ _. Ensures-raise _
  Ensures-after_wait f Wait.canceled =
      Ensures-then _ _ (unfold start_in_flight in record { after = λ w h. h }) λ _. Ensures-raise _

  Ensures-mount_with_timeout :
      (f : InFlight)
      → Ensures (Since start) (IsShown env start f.source f.target) (mount_with_timeout env cfg f)
  unfolding mount_with_timeout
  Ensures-mount_with_timeout f =
      Ensures-then _ _
        (Keeps-perform_wait env _
          (λ w h. since.guarded.borne.ordinary [] (await_mount f.target) w refl h))
        (Ensures-after_wait f)

  module _ (req : StageRequest) where
    abbrev pub Mounted : StageContext → World → Type 0
    Mounted c = IsShown env start (stage_source env cfg c) req.staging_target_path

    Ensures-mount_new :
        (c : StageContext) (m : MountOptions)
        → Ensures (Since start) (Mounted c) (mount_new env cfg req c m)
    unfolding mount_new
    Ensures-mount_new c m =
        Ensures-then _ _
          (Keeps-wrap _ _ (
            Keeps-prepare_path env (since.guarded.borne.ordinary []) cfg.windows
              req.staging_target_path))
          λ _. Ensures-then _ _ (Keeps-wrap _ _ (Keeps-lift _)) λ _. Ensures-mount_with_timeout _

    Read-Shown :
        (source : Text) (w : World) (tr : Trace)
        → Since start w
        → Read env req.staging_target_path w.trace tr
        → Shown env source req.staging_target_path start tr
    Read-Shown source w tr (mid, e) r =
        let target = req.staging_target_path in
        let (seen, l, _) = r.looked in
        let whole : r.before ≡ (seen ++ mid) ++ start = rw (l, e, append_assoc) refl in
        (
          read_dir_first target,
          (
            [],
            open_dir target ∷ (seen ++ mid),
            r.last ∙ ap (λ t. read_dir_first target ∷ open_dir target ∷ t) whole,
            before refl (
                subst
                  (λ t.
                    (env.error (open_dir target ∷ t) (read_dir_first target) ≡ none)
                    ⊎ (env.error (open_dir target ∷ t) (read_dir_first target) ≡ some end_of_file))
                  whole r.read),
          ),
        )

    Ensures-mounted_or_new :
        (c : StageContext) (m : MountOptions) (g : OsError → StageFailure)
        → Ensures (Since start) (Mounted c) (do
          mounted ← wrap g (ensure_mount_point env cfg.windows req.staging_target_path)
          if mounted then pure tt else mount_new env cfg req c m)
    unfolding pure
    Ensures-mounted_or_new c m g =
        let target = req.staging_target_path in
        let ensured = ensure_mount_point env cfg.windows target in
        Ensures-wrap_then g ensured _ λ w b h e.
          elim (ensure_mount_point-Read env target cfg.windows w (ensured w).1 b e) [
            | inl (yes_mounted, r) ↦ rw yes_mounted (Read-Shown _ w (ensured w).1.trace h r)
            | inr (not_mounted, _) ↦ rw not_mounted (
                (Ensures-mount_new c m).after (ensured w).1 (
                  (Keeps-ensure_mount_point env (since.guarded.borne.ordinary []) cfg.windows
                      target).after
                    w h))
          ]

    Ensures-stage_locked :
        (v : VolumeCapability) (c : StageContext)
        → Ensures (Since start) (Mounted c) (stage_locked env cfg req v c)
    unfolding stage_locked
    Ensures-stage_locked v c =
        let bears = since.guarded.borne in
        Ensures-then _ _ (Keeps-stage_credentials env cfg (bears.ordinary []) c _ req.secrets)
          λ credentials.
            Ensures-then _ _
              (Keeps-stage_options env cfg (bears.ordinary []) (bears.link_removed [])
                (bears.link_renamed []) req _ _ _ _ credentials)
              λ m. Ensures-mounted_or_new c m _

    Reaches-settle :
        (c : StageContext) (k : Text) (r : Result StageFailure (Unit {0})) (w : World)
        → Reaches (Mounted c) r w
        → Reaches (Mounted c) (settle k r w).0 (settle k r w).1
    unfolding settle release_lock ◌>>=◌ raise
    Reaches-settle c k (ok _) w h = h
    Reaches-settle c k (err f) w h = elim (Bool-cases f.keep_lock_held) [
      | inl e ↦ rw e tt
      | inr e ↦ rw e tt
    ]

    Ensures-release_unless_kept :
        (c : StageContext) (k : Text) (m : Run StageFailure (Unit {0}))
        → Ensures (Since start) (Mounted c) m
        → Ensures (Since start) (Mounted c) (release_unless_kept k m)
    unfolding release_unless_kept
    Ensures-release_unless_kept c k m hm = record {
      after = λ w h. Reaches-settle c k (m w).0 (m w).1 (hm.after w h);
    }

    pub Ensures-node_stage_volume :
        Ensures
          (Since start)
          (Mounted (parse_context no_context (env.visit req.volume_context)))
          (node_stage_volume env cfg req)
    unfolding node_stage_volume acquire_lock
    Ensures-node_stage_volume =
        let c = parse_context no_context (env.visit req.volume_context) in
        Ensures-then _ _ (Keeps-check _ _) λ _. Ensures-then _ _ (Keeps-lift _) λ v.
          Ensures-then _ _ (Keeps-check _ _) λ _. Ensures-then _ _ (Keeps-check _ _) λ _.
            Ensures-then _ _ (record { after = λ w h. h })
              λ _.
                Ensures-then _ _ (Keeps-check _ _)
                  λ _. Ensures-release_unless_kept c _ _ (Ensures-stage_locked v c)
