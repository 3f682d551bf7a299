-- ===== src/Node/Stage/Answer.antt =====
-- What the answer of NodeStageVolume says of the mount.
use csi_driver_smb.Base.{
  ◌≡◌, refl, sym, ◌∙◌, Bool, true, false, Option, none, some, List, [], ◌∷◌, Bool-cases, inl, inr,
}
use csi_driver_smb.Text.{Text}
use csi_driver_smb.Dict.{Dict}
use csi_driver_smb.Result.{
  Result, ok, err, Reason, Status, status, mount_timeout, mount_canceled, operation_exists, aborted,
}
use csi_driver_smb.Exec.{raise, pure, ◌>>=◌, ◌>>◌, lift, check}
use csi_driver_smb.Locks.{has, try_acquire}
use csi_driver_smb.Exec.Fails.{Allowed, Fails, fails_rules}
use csi_driver_smb.World.{
  Call, Wait, done, timed_out, deadline, canceled, Env, InFlight, World, Run, note,
}
use csi_driver_smb.Config.{Config}
use csi_driver_smb.Invariant.{Borne, Fails-perform, Fails-perform_wait}
use csi_driver_smb.Node.Context.{
  VolumeCapability, StageContext, no_context, parse_context, Credentials, MountOptions,
}
use csi_driver_smb.Node.Stage.{
  StageRequest, StageFailure, lock_key, settle, release_unless_kept, release_lock, acquire_lock,
  required, start_in_flight, after_wait, mount_with_timeout, mount_new, stage_credentials,
  stage_options, stage_locked, node_stage_volume,
}
use csi_driver_smb.Node.Stage.Rules.{Staged, Outcome}
use csi_driver_smb.Node.Stage.Kept.{Staged-stage_locked}

-- the request was answered while its mount was running
abbrev pub is_given_up : Reason → Bool
is_given_up mount_timeout = true
is_given_up mount_canceled = true
is_given_up _ = false

abbrev pub is_refusal : Reason → Bool
is_refusal operation_exists = true
is_refusal _ = false

-- An error says whether the mount still runs, and is none of a refused lock.
record Frank (f : StageFailure) : Type 0 where
  honest : f.keep_lock_held ≡ is_given_up f.status.reason
  late : is_refusal f.status.reason ≡ false

frank :
    (f : StageFailure)
    → f.keep_lock_held ≡ is_given_up f.status.reason
    → is_refusal f.status.reason ≡ false
    → Frank f
frank f h l = record { honest = h; late = l }

ruleset frank_rules = (fails_rules, Fails-perform, Fails-perform_wait, frank, refl)

module _ (env : Env) (cfg : Config) where
  Fails-after_wait : (f : InFlight) (s : Wait) → Fails Frank (after_wait env cfg f s)
  unfolding after_wait
  Fails-after_wait f done = search frank_rules
  Fails-after_wait f timed_out =
      unfold start_in_flight in record { result = λ w. unfold ◌>>=◌ raise in frank _ refl refl }
  Fails-after_wait f deadline =
      unfold start_in_flight in record { result = λ w. unfold ◌>>=◌ raise in frank _ refl refl }
  Fails-after_wait f canceled =
      unfold start_in_flight in record { result = λ w. unfold ◌>>=◌ raise in frank _ refl refl }

  Fails-mount_new :
      (req : StageRequest) (c : StageContext) (m : MountOptions)
      → Fails Frank (mount_new env cfg req c m)
  unfolding mount_new mount_with_timeout
  Fails-mount_new req c m = search (frank_rules, Fails-after_wait) depth 12

  Fails-stage_credentials :
      (c : StageContext) (b : Bool) (secrets : Dict)
      → Fails Frank (stage_credentials env cfg c b secrets)
  unfolding stage_credentials
  Fails-stage_credentials c b secrets = search frank_rules

  Fails-stage_options :
      (req : StageRequest) (given : List Text) (group : Text) (flags : List Text) (b : Bool)
      (c : Credentials)
      → Fails Frank (stage_options env cfg req given group flags b c)
  unfolding stage_options
  Fails-stage_options req given group flags b c = search frank_rules depth 12

  Fails-stage_locked :
      (req : StageRequest) (v : VolumeCapability) (c : StageContext)
      → Fails Frank (stage_locked env cfg req v c)
  unfolding stage_locked
  Fails-stage_locked req v c =
      search (frank_rules, Fails-mount_new, Fails-stage_credentials, Fails-stage_options) depth 12

-- How the mounts that are still running change, as the request was given up or not.
abbrev pub Grown : Text → List InFlight → Bool → List InFlight → Type 0
Grown k fs true fs' = (f : InFlight) × (f.lock_key ≡ k) × (fs' ≡ f ∷ fs)
Grown k fs false fs' = fs' ≡ fs

-- the same while `held` is locked
abbrev Counted : Text → List InFlight → List Text → World → Type 0
Counted k fs [] w = Grown k fs true w.in_flight
Counted k fs (j ∷ []) w = (j ≡ k) × (w.in_flight ≡ fs)
Counted k fs (i ∷ j ∷ _) w = ⊥

Borne-Counted : (cfg : Config) (k : Text) (fs : List InFlight) → Borne cfg (Counted k fs)
Borne-Counted cfg k fs = record {
  ordinary = λ held c w o h. Counted-note held c w h;
  link_removed = λ held name w h. Counted-note held _ w h;
  link_renamed = λ held from name w h. Counted-note held _ w h;
  handed_over = counted-start;
}
  where
    Counted-note :
        (held : List Text) (c : Call) (w : World)
        → Counted k fs held w
        → Counted k fs held (note c w)
    Counted-note [] c w h = h
    Counted-note (j ∷ []) c w h = h
    Counted-note (i ∷ (j ∷ _)) c w h = elim h [ ]

    counted-start :
        (held : List Text) (f : InFlight) (w : World)
        → Counted k fs (f.lock_key ∷ held) w
        → Counted k fs held (record w { in_flight = f ∷ w.in_flight })
    counted-start [] f w (e, h) = (f, e, rw h refl)
    counted-start (i ∷ _) f w h = elim h [ ]

-- the answers that leave a mount running
abbrev pub given_up : Result Status (Unit {0}) → Bool
given_up (ok _) = false
given_up (err s) = is_given_up s.reason

module _ (env : Env) (cfg : Config) where
  settle-Grown :
      (k : Text) (fs : List InFlight) (r : Result StageFailure (Unit {0})) (w : World)
      → Allowed Frank r
      → Outcome env cfg (Borne-Counted cfg k fs) k [] r w
      → Grown k fs (given_up (settle k r w).0) (settle k r w).1.in_flight
  unfolding settle release_lock ◌>>=◌ raise
  settle-Grown k fs (ok _) w h (_, o) = o
  settle-Grown k fs (err f) w h o = elim (Bool-cases f.keep_lock_held) [
    | inl e ↦ rw (e, sym h.honest ∙ e) (rw e at o)
    | inr e ↦ rw (e, sym h.honest ∙ e) (let o' : Counted k fs (k ∷ []) w = rw e at o in o'.1)
  ]

-- the answers that a lock was in the way
abbrev pub refused : Result Status (Unit {0}) → Bool
refused (ok _) = false
refused (err s) = is_refusal s.reason

-- The running mounts and the lock are as the answer says.
record Honest (k : Text) (m : Run Status (Unit {0})) : Type 0 where
  grown : (w : World) → Grown k w.in_flight (given_up (m w).0) (m w).1.in_flight
  locked : (w : World) → refused (m w).0 ≡ true → has w.locks k ≡ true

Honest-check :
    (k : Text) (b : Bool) (s : Status) (m : Run Status (Unit {0}))
    → is_given_up s.reason ≡ false
    → is_refusal s.reason ≡ false
    → Honest k m
    → Honest k (check b s >> m)
unfolding check pure raise ◌>>=◌
Honest-check k true s m g r h = record { grown = h.grown; locked = h.locked }
Honest-check k false s m g r h = record { grown = λ w. rw g refl; locked = λ w e. cc }

Honest-required :
    {A : Type 0} (k : Text) (o : Option A) (r : Reason) (f : A → Run Status (Unit {0}))
    → is_given_up r ≡ false
    → is_refusal r ≡ false
    → ((a : A) → Honest k (f a))
    → Honest k (lift (required o r) >>= f)
unfolding required lift ◌>>=◌
Honest-required k none r f g x h = record { grown = λ w. rw g refl; locked = λ w e. cc }
Honest-required k (some a) r f g x h = record { grown = (h a).grown; locked = (h a).locked }

refused-settle :
    (k : Text) (r : Result StageFailure (Unit {0})) (w : World)
    → Allowed Frank r
    → refused (settle k r w).0 ≡ false
unfolding settle release_lock ◌>>=◌ raise
refused-settle k (ok _) w h = refl
refused-settle k (err f) w h = elim (Bool-cases f.keep_lock_held) [
  | inl e ↦ rw e h.late
  | inr e ↦ rw e h.late
]

module _ (env : Env) (cfg : Config) (k : Text) (m : Run StageFailure (Unit {0}))
    (errors : Fails Frank m)
    (ends : (fs : List InFlight) → Staged env cfg (Borne-Counted cfg k fs) k [] m) where
  released-Grown :
      (w : World)
      → Grown k w.in_flight
          (given_up (release_unless_kept k m w).0)
          (release_unless_kept k m w).1.in_flight
  unfolding release_unless_kept
  released-Grown w =
      settle-Grown env cfg k w.in_flight (m w).0 (m w).1 (errors.result w)
        ((ends w.in_flight).after w (refl, refl))

  released-refused : (w : World) → refused (release_unless_kept k m w).0 ≡ false
  unfolding release_unless_kept
  released-refused w = refused-settle k (m w).0 (m w).1 (errors.result w)

  Honest-under_lock : Honest k (do
    acquired ← acquire_lock k
    check acquired (status aborted operation_exists)
    release_unless_kept k m)
  unfolding acquire_lock check ◌>>=◌ try_acquire raise pure
  Honest-under_lock = record {
    grown = λ w. elim (Bool-cases (has w.locks k)) [
      | inl e ↦ rw e refl
      | inr e ↦ rw e (released-Grown (record w { locks = k ∷ w.locks }))
    ];
    locked = λ w x. elim (Bool-cases (has w.locks k)) [
      | inl e ↦ e
      | inr e ↦
          (let y : refused (release_unless_kept k m (record w { locks = k ∷ w.locks })).0 ≡ true =
              rw e at x in
            cc (released-refused (record w { locks = k ∷ w.locks })))
    ];
  }

module _ (env : Env) (cfg : Config) (req : StageRequest) where
  Honest-node_stage_volume :
      Honest (lock_key req.volume_id req.staging_target_path) (node_stage_volume env cfg req)
  unfolding node_stage_volume
  Honest-node_stage_volume =
      let k = lock_key req.volume_id req.staging_target_path in
      let c = parse_context no_context (env.visit req.volume_context) in
      Honest-check k _ _ _ refl refl (
        Honest-required k req.capability _ _ refl refl λ v. Honest-check k _ _ _ refl refl (
          Honest-check k _ _ _ refl refl (
            Honest-under_lock env cfg k _ (Fails-stage_locked env cfg req v c)
              λ fs. Staged-stage_locked env cfg (Borne-Counted cfg k fs) [] req v c)))

  -- An answer that gives up the wait adds one running mount, under the key of the request; every other
  -- answer, success included, leaves the running mounts as they were.
  pub node_stage_volume-Grown :
      (w : World)
      → Grown
          (lock_key req.volume_id req.staging_target_path)
          w.in_flight
          (given_up (node_stage_volume env cfg req w).0)
          (node_stage_volume env cfg req w).1.in_flight
  node_stage_volume-Grown w = Honest-node_stage_volume.grown w

  -- An answer that another operation is going on is given only under a key that is locked.
  pub node_stage_volume-refused :
      (w : World)
      → refused (node_stage_volume env cfg req w).0 ≡ true
      → has w.locks (lock_key req.volume_id req.staging_target_path) ≡ true
  node_stage_volume-refused w h = Honest-node_stage_volume.locked w h
