-- ===== src/Node/Stage/Kept.antt =====
-- Staging and unstaging keep every property that bears their calls and their locks.
use csi_driver_smb.Base.{◌≡◌, refl, Bool, true, List, ◌∷◌, Bool-cases, inl, inr}
use csi_driver_smb.Text.{Text}
use csi_driver_smb.Dict.{Dict}
use csi_driver_smb.Result.{Status, Result, ok, err}
use csi_driver_smb.Exec.{raise, ◌>>=◌, ◌>>◌, finally, check}
use csi_driver_smb.Exec.Fails.{Fails}
use csi_driver_smb.Exec.Keeps.{Keeps, keeps_rules}
use csi_driver_smb.Locks.{has, try_acquire}
use csi_driver_smb.World.{
  Env, InFlight, World, Run, Call, note, remove_all, rename, await_mount, perform_wait,
}
use csi_driver_smb.Kerberos.{kerberos_file_path}
use csi_driver_smb.Config.{Config}
use csi_driver_smb.Invariant.{
  is_ordinary, Borne, Guarded, Unmounts, call_rules, Keeps-perform_wait, Fails-perform_wait,
}
use csi_driver_smb.Node.Mounter.Kept.{
  Keeps-ensure_mount_point, Keeps-cleanup_smb_mount_point, Keeps-prepare_path,
}
use csi_driver_smb.Node.Kerberos.Kept.{Keeps-ensure_kerberos_cache, Keeps-delete_kerberos_cache}
use csi_driver_smb.Node.Context.{VolumeCapability, StageContext, Credentials, MountOptions}
use csi_driver_smb.Node.Stage.{
  StageRequest, UnstageRequest, StageFailure, lock_key, acquire_lock, release_lock, settle,
  release_unless_kept, user_name_password_from_secret, mount_with_timeout, stage_credentials,
  stage_options, mount_new, stage_locked, node_stage_volume, unstage_locked, node_unstage_volume,
  after_wait,
}
use csi_driver_smb.Node.Stage.Rules.{
  LetsGo, Staged, Staged-plain, Staged-if, Staged-bind, Staged-after_wait, Outcome, lets_go_rules,
}

module _ (env : Env) (cfg : Config) {P : World → Type 0}
    (bears : (c : Call) (w : World) → is_ordinary c ≡ true → P w → P (note c w)) where
  Keeps-user_name_password_from_secret :
      (name namespace : Text) → Keeps P (user_name_password_from_secret env cfg name namespace)
  unfolding user_name_password_from_secret
  Keeps-user_name_password_from_secret name namespace = search (keeps_rules, call_rules) depth 9

  pub Keeps-stage_credentials :
      (c : StageContext) (b : Bool) (secrets : Dict)
      → Keeps P (stage_credentials env cfg c b secrets)
  unfolding stage_credentials
  Keeps-stage_credentials c b secrets = search (keeps_rules, Keeps-user_name_password_from_secret)

  pub Keeps-stage_options :
      ((name : Text) (w : World)
        → P w
        → P (note (remove_all (kerberos_file_path cfg.krb5_cache_directory name)) w))
      → ((from name : Text) (w : World)
          → P w
          → P (note (rename from (kerberos_file_path cfg.krb5_cache_directory name)) w))
      → (req : StageRequest) (given : List Text) (group : Text) (flags : List Text) (b : Bool)
        (c : Credentials)
      → Keeps P (stage_options env cfg req given group flags b c)
  unfolding stage_options
  Keeps-stage_options removed renamed req given group flags b c =
      search (keeps_rules, call_rules, Keeps-ensure_kerberos_cache) depth 9

Fails-stage_credentials :
    (env : Env) (cfg : Config) (c : StageContext) (b : Bool) (secrets : Dict)
    → Fails LetsGo (stage_credentials env cfg c b secrets)
unfolding stage_credentials
Fails-stage_credentials env cfg c b secrets = search lets_go_rules

Fails-stage_options :
    (env : Env) (cfg : Config) (req : StageRequest) (given : List Text) (group : Text)
    (flags : List Text) (b : Bool) (c : Credentials)
    → Fails LetsGo (stage_options env cfg req given group flags b c)
unfolding stage_options
Fails-stage_options env cfg req given group flags b c = search lets_go_rules depth 9

module _ (env : Env) (cfg : Config) {P : List Text → World → Type 0} (borne : Borne cfg P) where
  Staged-mount_with_timeout :
      (held : List Text) (f : InFlight)
      → Staged env cfg borne f.lock_key held (mount_with_timeout env cfg f)
  unfolding mount_with_timeout
  Staged-mount_with_timeout held f =
      Staged-bind env cfg borne f.lock_key held (perform_wait env (await_mount f.target))
        (λ w. after_wait env cfg f w) (Fails-perform_wait env _)
        (Keeps-perform_wait env _
          (λ w h. borne.ordinary (f.lock_key ∷ held) (await_mount f.target) w refl h))
        (Staged-after_wait env cfg borne f held)

  Staged-mount_new :
      (held : List Text) (req : StageRequest) (c : StageContext) (m : MountOptions)
      → Staged env cfg borne
          (lock_key req.volume_id req.staging_target_path)
          held
          (mount_new env cfg req c m)
  unfolding mount_new
  Staged-mount_new held req c m =
      search
        (
          Staged-bind,
          lets_go_rules,
          keeps_rules,
          Keeps-prepare_path,
          borne.ordinary (lock_key req.volume_id req.staging_target_path ∷ held),
          Staged-mount_with_timeout,
        )
        depth 9

  pub Staged-stage_locked :
      (held : List Text) (req : StageRequest) (v : VolumeCapability) (c : StageContext)
      → Staged env cfg borne
          (lock_key req.volume_id req.staging_target_path)
          held
          (stage_locked env cfg req v c)
  unfolding stage_locked
  Staged-stage_locked held req v c =
      search
        (
          Staged-bind,
          Staged-if,
          Staged-plain,
          lets_go_rules,
          keeps_rules,
          Fails-stage_credentials,
          Fails-stage_options,
          Keeps-stage_credentials,
          Keeps-stage_options,
          Keeps-ensure_mount_point,
          borne.ordinary (lock_key req.volume_id req.staging_target_path ∷ held),
          borne.link_removed (lock_key req.volume_id req.staging_target_path ∷ held),
          borne.link_renamed (lock_key req.volume_id req.staging_target_path ∷ held),
          Staged-mount_new,
        )
        depth 9

module _ (env : Env) (cfg : Config) {P : List Text → World → Type 0} (guarded : Guarded cfg P) where
  settle-Outcome :
      (k : Text) (held : List Text) (r : Result StageFailure (Unit {0})) (w : World)
      → Outcome env cfg guarded.borne k held r w
      → P held (settle k r w).1
  unfolding settle
  settle-Outcome k held (ok _) w h = unfold release_lock in guarded.released held k w h
  settle-Outcome k held (err f) w h = elim (Bool-cases f.keep_lock_held) [
    | inl e ↦ rw e (unfold raise in rw e at h)
    | inr e ↦ rw e (unfold release_lock ◌>>=◌ in guarded.released held k w (rw e at h))
  ]

  after_release :
      (k : Text) (held : List Text) (m : Run StageFailure (Unit {0}))
      → Staged env cfg guarded.borne k held m
      → (w : World) → P (k ∷ held) w
      → P held (release_unless_kept k m w).1
  unfolding release_unless_kept
  after_release k held m s w h = settle-Outcome k held (m w).0 (m w).1 (s.after w h)

-- An operation under a lock of its own keeps what it keeps while the lock is held.
module _ (cfg : Config) {P : List Text → World → Type 0} (guarded : Guarded cfg P) where
  pub Keeps-locked :
      {A : Type 0} (held : List Text) (k : Text) (s : Status) (m : Run Status A)
      → ((w : World) → P (k ∷ held) w → P held (m w).1)
      → Keeps (P held) (do acquired ← acquire_lock k; check acquired s; m)
  unfolding acquire_lock check ◌>>=◌ try_acquire
  Keeps-locked held k s m hm = record {
    after = λ w h. elim (Bool-cases (has w.locks k)) [
      | inl e ↦ rw e h
      | inr e ↦ rw e (hm (record w { locks = k ∷ w.locks }) (guarded.acquired held k w e h))
    ];
  }

module _ (env : Env) (cfg : Config) {P : List Text → World → Type 0} (guarded : Guarded cfg P) where
  Keeps-unstage_locked :
      (req : UnstageRequest)
      → Unmounts P req.volume_id
      → (held : List Text) → Keeps (P held) (unstage_locked env cfg req)
  unfolding unstage_locked
  Keeps-unstage_locked req unmounted held =
      search
        (
          keeps_rules,
          Keeps-cleanup_smb_mount_point,
          Keeps-delete_kerberos_cache,
          guarded.borne.ordinary held,
        )
        depth 9

  -- Releasing the lock at the end, whatever the result.
  pub released_after :
      {A : Type 0} (held : List Text) (k : Text) (m : Run Status A)
      → Keeps (P (k ∷ held)) m
      → (w : World) → P (k ∷ held) w
      → P held (finally m (release_lock {E = Status} k) w).1
  unfolding finally release_lock
  released_after held k m km w h = guarded.released held k (m w).1 (km.after w h)

  pub Keeps-node_stage_volume :
      (held : List Text) (req : StageRequest) → Keeps (P held) (node_stage_volume env cfg req)
  unfolding node_stage_volume
  Keeps-node_stage_volume held req =
      search
        (
          keeps_rules,
          Keeps-locked cfg guarded held,
          after_release env cfg guarded (lock_key req.volume_id req.staging_target_path) held,
          Staged-stage_locked env cfg guarded.borne held,
        )
        depth 12

  pub Keeps-node_unstage_volume :
      (held : List Text) (req : UnstageRequest)
      → Unmounts P req.volume_id
      → Keeps (P held) (node_unstage_volume env cfg req)
  unfolding node_unstage_volume
  Keeps-node_unstage_volume held req unmounted =
      search
        (
          keeps_rules,
          Keeps-locked cfg guarded held,
          released_after held (lock_key req.volume_id req.staging_target_path),
          Keeps-unstage_locked req unmounted,
        )
        depth 12
