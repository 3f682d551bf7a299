-- ===== src/Node/Stage.antt =====
-- NodeStageVolume, mountWithTimeout and NodeUnstageVolume of nodeserver.go, and
-- GetUserNamePasswordFromSecret of smb.go.
mod Rules
pub mod Kept
pub mod Answer
pub mod Shown
use csi_driver_smb.Base.{
  Bool, true, false, not, ◌&&◌, ◌||◌, Option, none, some, List, [], ◌∷◌, ◌++◌, if◌then◌else◌,
  is_empty,
}
use csi_driver_smb.Text.{Text, codes, text_eq, split, trim_space, trim_right}
use csi_driver_smb.Dict.{Dict, get, replace_with_map}
use csi_driver_smb.Names.{username_field, password_field, domain_field}
use csi_driver_smb.Result.{
  Result, ok, err, Code, Reason, Status, status, invalid_argument, internal, unknown, aborted,
  deadline_exceeded, canceled, volume_id_missing, capability_missing, staging_missing,
  source_field_missing, operation_exists, secret_failed, kerberos_failed, mkdir_failed,
  ensure_failed, prepare_failed, invalid_source, mount_failed, mount_timeout, mount_canceled,
  unmount_failed, delete_kerberos_failed,
}
use csi_driver_smb.Exec.{pure, raise, lift, ◌>>=◌, ◌>>◌, wrap, finally, check, check_none}
use csi_driver_smb.Options.{has_guest_mount_options}
use csi_driver_smb.FilePath.{slash}
use csi_driver_smb.Volume.Defs.{validate_path}
use csi_driver_smb.Volume.Params.{metadata_dict}
use csi_driver_smb.Locks.{try_acquire, release}
use csi_driver_smb.World.{
  OsError, Wait, done, timed_out, deadline, mkdir_all, get_secret, await_mount, Env, InFlight,
  World, Run, perform, perform_dict, perform_wait, check_os,
}
use csi_driver_smb.Config.{Config}
use csi_driver_smb.Node.Mounter.{
  ensure_mount_point, mount_volume, cleanup_smb_mount_point, prepare_path,
}
use csi_driver_smb.Node.Kerberos.{ensure_kerberos_cache, delete_kerberos_cache}
use csi_driver_smb.Node.Context.{
  VolumeCapability, mount_of, StageContext, no_context, parse_context, Credentials, no_credentials,
  parse_secrets, MountOptions, windows_options, linux_options,
}

pub record StageRequest : Type 0 where
  pub volume_id : Text
  pub capability : Option VolumeCapability
  pub staging_target_path : Text
  pub volume_context : Dict
  pub secrets : Dict

pub record UnstageRequest : Type 0 where
  pub volume_id : Text
  pub staging_target_path : Text

-- An error under the lock, and whether the lock is kept for a mount that still runs.
pub record StageFailure : Type 0 where
  pub status : Status
  pub keep_lock_held : Bool

abbrev pub failure : Status → StageFailure
failure s = record { status = s; keep_lock_held = false }

abbrev kept : Status → StageFailure
kept s = record { status = s; keep_lock_held = true }

-- fmt.Sprintf("%s-%s", volumeID, targetPath)
abbrev pub lock_key : Text → Text → Text
lock_key volume_id target = volume_id ++ b'-' ∷ target

module _ {E : Type 0} where
  unfoldable pub acquire_lock : Text → Run E Bool
  acquire_lock k w =
      let (acquired, l) = try_acquire w.locks k in (ok acquired, record w { locks = l })

  unfoldable pub release_lock : Text → Run E (Unit {0})
  release_lock k w = (ok tt, record w { locks = release w.locks k })

  unfoldable pub start_in_flight : InFlight → Run E (Unit {0})
  start_in_flight f w = (ok tt, record w { in_flight = f ∷ w.in_flight })

settle : Text → Result StageFailure (Unit {0}) → Run Status (Unit {0})
unfolding release_lock
settle k (ok _) = release_lock k
settle k (err f) = if f.keep_lock_held then raise f.status else (do release_lock k; raise f.status)

-- the deferred release of NodeStageVolume, which a mount that still runs calls off
unfoldable pub release_unless_kept : Text → Run StageFailure (Unit {0}) → Run Status (Unit {0})
unfolding settle
release_unless_kept k body w = let (r, w') = body w in settle k r w'

unfoldable pub required {ℓ} : {A : Type ℓ} → Option A → Reason → Result Status A
required none r = err (status invalid_argument r)
required (some a) r = ok a

-- the in-flight mounts without the one that ended
unfoldable pub without : Text → List InFlight → List InFlight
without k [] = []
without k (f ∷ fs) = let rest = without k fs in if text_eq f.lock_key k then rest else f ∷ rest

unfoldable pub end_in_flight : {E : Type 0} → Text → Run E (Unit {0})
unfolding without
end_in_flight k w = (ok tt, record w { in_flight = without k w.in_flight })

module _ (env : Env) (cfg : Config) where
  unfoldable pub user_name_password_from_secret : Text → Text → Run OsError Credentials
  user_name_password_from_secret name namespace =
      if cfg.kube_client
      then (do
        secret ← perform_dict env (get_secret namespace name)
        check_os secret.0
        pure (record {
          username = trim_space (get secret.1 username_field);
          password = trim_space (get secret.1 password_field);
          domain = trim_space (get secret.1 domain_field);
        }))
      else raise OsError.other

  -- what the select of mountWithTimeout saw; the mount counts as done if it was done on the second
  -- look
  pub after_wait : InFlight → Wait → Run StageFailure (Unit {0})
  unfolding start_in_flight
  after_wait f done =
      wrap (λ _. failure (status internal mount_failed))
        (mount_volume env cfg.windows f.source f.target (codes "cifs") f.options f.sensitive
          f.volume_id)
  after_wait f timed_out = do
    start_in_flight f
    raise (kept (status deadline_exceeded mount_timeout))
  after_wait f deadline = do
    start_in_flight f
    raise (kept (status deadline_exceeded mount_canceled))
  after_wait f Wait.canceled = do
    start_in_flight f
    raise (kept (status Code.canceled mount_canceled))

  -- The goroutine of a mount that is still running goes on after the answer.
  unfoldable pub mount_with_timeout : InFlight → Run StageFailure (Unit {0})
  unfolding after_wait
  mount_with_timeout f = do w ← perform_wait env (await_mount f.target); after_wait f w

  pub stage_credentials : StageContext → Bool → Dict → Run StageFailure Credentials
  unfolding user_name_password_from_secret
  stage_credentials c require_password secrets =
      if c.ephemeral && require_password
      then wrap (λ _. failure (status internal secret_failed))
          (user_name_password_from_secret c.secret_name c.secret_namespace)
      else pure (parse_secrets no_credentials (env.visit secrets))

  -- the options for the mounter; on Linux the Kerberos cache and the target are made
  pub stage_options :
      StageRequest
      → List Text
      → Text
      → List Text
      → Bool
      → Credentials
      → Run StageFailure MountOptions
  stage_options req given group flags require_password c =
      if cfg.windows then pure (windows_options require_password c) else (do
        use_kerberos_cache ←
            wrap (λ _. failure (status internal kerberos_failed))
              (ensure_kerberos_cache env cfg.krb5_cache_directory cfg.krb5_prefix req.volume_id
                flags req.secrets)
        e ← perform env (mkdir_all req.staging_target_path)
        check_none e (failure (status internal mkdir_failed))
        pure (linux_options require_password use_kerberos_cache given group flags c))

  -- the source to mount, with the subdirectory behind it
  unfoldable pub stage_source : StageContext → Text
  stage_source c =
      if is_empty c.sub_dir
      then c.source
      else trim_right c.source slash
        ++ slash ∷ replace_with_map env.visit c.sub_dir (metadata_dict c.metadata)

  mount_new : StageRequest → StageContext → MountOptions → Run StageFailure (Unit {0})
  unfolding stage_source mount_with_timeout
  mount_new req c m = do
    wrap (λ _. failure (status unknown prepare_failed))
        (prepare_path env cfg.windows req.staging_target_path)
    let source = stage_source c
    wrap (λ (_ : Reason). failure (status invalid_argument invalid_source))
        (lift (validate_path source))
    mount_with_timeout (record {
      lock_key = lock_key req.volume_id req.staging_target_path;
      source = source;
      target = req.staging_target_path;
      options = m.options;
      sensitive = m.sensitive;
      volume_id = req.volume_id;
    })

  -- what NodeStageVolume does under its lock
  pub stage_locked : StageRequest → VolumeCapability → StageContext → Run StageFailure (Unit {0})
  unfolding stage_credentials stage_options mount_new
  stage_locked req capability c = do
    let m = mount_of capability.access_type
    let flags = if c.ephemeral then split c.mount_options b',' else m.mount_flags
    let require_password = not (has_guest_mount_options flags)
    credentials ← stage_credentials c require_password req.secrets
    options ←
        stage_options req m.mount_flags m.volume_mount_group flags require_password credentials
    mounted ←
        wrap (λ _. failure (status internal ensure_failed))
          (ensure_mount_point env cfg.windows req.staging_target_path)
    if mounted then pure tt else mount_new req c options

  unfoldable pub node_stage_volume : StageRequest → Run Status (Unit {0})
  unfolding stage_locked release_unless_kept acquire_lock
  node_stage_volume req = do
    check (not (is_empty req.volume_id)) (status invalid_argument volume_id_missing)
    capability ← lift (required req.capability capability_missing)
    check (not (is_empty req.staging_target_path)) (status invalid_argument staging_missing)
    let c = parse_context no_context (env.visit req.volume_context)
    check (not (is_empty c.source)) (status invalid_argument source_field_missing)
    let key = lock_key req.volume_id req.staging_target_path
    acquired ← acquire_lock key
    check acquired (status aborted operation_exists)
    release_unless_kept key (stage_locked req capability c)

  unstage_locked : UnstageRequest → Run Status (Unit {0})
  unstage_locked req = do
    wrap (λ _. status internal unmount_failed)
        (cleanup_smb_mount_point env cfg.windows req.staging_target_path req.volume_id)
    wrap (λ _. status internal delete_kerberos_failed)
        (delete_kerberos_cache env cfg.krb5_cache_directory req.volume_id)

  unfoldable pub node_unstage_volume : UnstageRequest → Run Status (Unit {0})
  unfolding unstage_locked acquire_lock release_lock
  node_unstage_volume req = do
    check (not (is_empty req.volume_id)) (status invalid_argument volume_id_missing)
    check (not (is_empty req.staging_target_path)) (status invalid_argument staging_missing)
    let key = lock_key req.volume_id req.staging_target_path
    acquired ← acquire_lock key
    check acquired (status aborted operation_exists)
    finally (unstage_locked req) (release_lock {E = Status} key)

  -- the goroutine that deferReleaseLock starts: the mount comes to its end, its error is logged only,
  -- and the lock is released
  unfoldable pub finish_mount : InFlight → Run OsError (Unit {0})
  unfolding release_lock end_in_flight
  finish_mount f =
      finally
        (mount_volume env cfg.windows f.source f.target (codes "cifs") f.options f.sensitive
          f.volume_id)
        (do release_lock {E = OsError} f.lock_key; end_in_flight f.lock_key)
