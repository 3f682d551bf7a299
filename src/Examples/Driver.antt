-- ===== src/Examples/Driver.antt =====
-- Runs of a driver process.
use csi_driver_smb.Base.{ℕ, ◌≤◌, ◌≡◌, ◌↔◌, refl, true, false, [], ◌∷◌, ◌++◌, length}
use csi_driver_smb.Text.{Text, text_eq, to_lower}
use csi_driver_smb.Result.{err, status, aborted, operation_exists}
use csi_driver_smb.World.{done, timed_out, World, InFlight}
use csi_driver_smb.Locks.{has}
use csi_driver_smb.Node.Context.{parse_context}
use csi_driver_smb.Node.Stage.{lock_key, node_stage_volume, node_unstage_volume, finish_mount}
use csi_driver_smb.Node.Stage.Answer.{Grown, given_up, refused, node_stage_volume-Grown}
use csi_driver_smb.Driver.{Request, new_driver, serve, Reached, started, served}
use csi_driver_smb.Driver.Locking.{keys, Fresh, locked-in_flight}
use csi_driver_smb.Driver.Drained.{Ends, drained}
use csi_driver_smb.Driver.Refusal.{
  IsStageable, node_stage_volume-running, stage_unstage-running, finish_mount-free,
}
use csi_driver_smb.Examples.World.{quiet, linux, delete_request, stage_request, plain_mount}

-- a process that has deleted a volume
abbrev deleted : World
deleted = serve (quiet done) linux (Request.delete delete_request) new_driver

-- a process with a mount that is still running
abbrev waiting : World
waiting = serve (quiet timed_out) linux (Request.stage stage_request) new_driver

waiting-Reached : Reached (quiet timed_out) linux waiting
waiting-Reached = served started (Request.stage stage_request)

locked-in_flight_example :
    (has waiting.locks (lock_key stage_request.volume_id stage_request.staging_target_path)
      ≡ has
          (keys waiting.in_flight)
          (lock_key stage_request.volume_id stage_request.staging_target_path))
    × Fresh (keys waiting.in_flight)
locked-in_flight_example =
    locked-in_flight (quiet timed_out) linux waiting
      (lock_key stage_request.volume_id stage_request.staging_target_path) waiting-Reached

stageable : IsStageable (quiet timed_out) stage_request
unfolding parse_context text_eq to_lower
stageable = record {
  volume_id = refl;
  capability = plain_mount;
  given = refl;
  target = refl;
  source = refl;
}

node_stage_volume-running_example :
    (refused (node_stage_volume (quiet timed_out) linux stage_request waiting).0 ≡ true) ↔ (
      has
        (keys waiting.in_flight)
        (stage_request.volume_id ++ b'-' ∷ stage_request.staging_target_path)
      ≡ true)
node_stage_volume-running_example =
    node_stage_volume-running (quiet timed_out) linux stage_request waiting waiting-Reached
      stageable

node_stage_volume-Grown_example :
    Grown
      (lock_key stage_request.volume_id stage_request.staging_target_path)
      []
      (given_up (node_stage_volume (quiet timed_out) linux stage_request new_driver).0)
      (node_stage_volume (quiet timed_out) linux stage_request new_driver).1.in_flight
node_stage_volume-Grown_example =
    node_stage_volume-Grown (quiet timed_out) linux stage_request new_driver

waiting_running :
    has
      (keys waiting.in_flight)
      (lock_key stage_request.volume_id stage_request.staging_target_path)
    ≡ true
unfolding serve node_stage_volume has csi_driver_smb.Exec.◌>>=◌ csi_driver_smb.Exec.check
    csi_driver_smb.Node.Stage.required parse_context text_eq to_lower
    csi_driver_smb.Locks.try_acquire csi_driver_smb.Exec.wrap
    csi_driver_smb.Node.Kerberos.ensure_kerberos_cache
    csi_driver_smb.Options.has_kerberos_mount_option csi_driver_smb.World.perform
    csi_driver_smb.Exec.check_none csi_driver_smb.Node.Mounter.ensure_mount_point
    csi_driver_smb.World.perform_flag csi_driver_smb.World.perform_texts
    csi_driver_smb.World.check_os csi_driver_smb.World.perform_text
    csi_driver_smb.Node.Mounter.prepare_path csi_driver_smb.Volume.Defs.validate_path
    csi_driver_smb.Text.fields_func csi_driver_smb.World.perform_wait
waiting_running = refl

stage_unstage-running_example :
    (node_stage_volume (quiet timed_out) linux stage_request waiting
      ≡ (err (status aborted operation_exists), waiting))
    × (node_unstage_volume
          (quiet timed_out)
          linux
          (record {
            volume_id = stage_request.volume_id;
            staging_target_path = stage_request.staging_target_path;
          })
          waiting
        ≡ (err (status aborted operation_exists), waiting))
stage_unstage-running_example =
    stage_unstage-running (quiet timed_out) linux stage_request waiting waiting-Reached stageable
      waiting_running

abbrev running : InFlight
running = record {
  lock_key = lock_key stage_request.volume_id stage_request.staging_target_path;
  source = [];
  target = stage_request.staging_target_path;
  options = [];
  sensitive = [];
  volume_id = stage_request.volume_id;
}

finish_mount-free_example :
    (has (finish_mount (quiet timed_out) linux running waiting).1.locks running.lock_key ≡ false)
    × (refused
          (node_stage_volume
            (quiet timed_out)
            linux
            stage_request
            (finish_mount (quiet timed_out) linux running waiting).1).0
        ≡ false)
finish_mount-free_example =
    finish_mount-free (quiet timed_out) linux stage_request waiting running refl

drained_example :
    (n : ℕ) × (t : World) × (n ≤ length waiting.in_flight)
    × Ends (quiet timed_out) linux waiting n t
    × Reached (quiet timed_out) linux t
    × (t.in_flight ≡ [])
    × ((k : Text) → has t.locks k ≡ false)
drained_example = drained (quiet timed_out) linux waiting waiting-Reached
