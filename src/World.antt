-- ===== src/World.antt =====
-- The driver's state, and the world outside of it. Each call of the operating system, the mounter,
-- the Kubernetes client and the caches is a `Call` that is written to a trace; what it answers is
-- a function of the calls made before it and of itself, an argument of the model. So a theorem that
-- holds for every `Env` holds whatever these answer.
use csi_driver_smb.Base.{Bool, Option, none, some, List, ◌∷◌}
use csi_driver_smb.Base.Int.{ℤ}
use csi_driver_smb.Text.{Text}
use csi_driver_smb.Dict.{Dict, Visit}
use csi_driver_smb.Result.{ok}
use csi_driver_smb.Exec.{Exec, pure, raise}

pub data OsError : Type 0 where
  not_exist exist corrupted end_of_file other : OsError

pub data Call : Type 0 where
  -- os, io
  mkdir_all remove_all : Text → Call
  remove lstat stat open_dir read_dir_first read_dir read_link : Text → Call
  rename symlink : Text → Text → Call
  chmod_tree : Text → Call
  write_file : Text → Text → Call
  chown : Text → ℤ → Call
  create_temp : Text → Text → Call
  write : Text → Text → Call
  -- path/filepath, on the current directory
  abs_path : Text → Call
  -- os/exec: `cp -a`
  copy_tree : Text → Text → Call
  -- k8s.io/mount-utils
  is_likely_not_mount_point unmount cleanup_mount_point path_exists : Text → Call
  list_mounts : Call
  mount : Text → Text → Text → List Text → Call
  mount_sensitive : Text → Text → Text → List Text → List Text → Call
  -- pkg/mounter on Windows
  smb_mount : Text → Text → Text → List Text → List Text → Text → Call
  smb_unmount : Text → Text → Call
  proxy_rmdir proxy_exists : Text → Call
  -- k8s.io/client-go
  get_secret : Text → Text → Call
  -- azcache
  deletion_cache_get deletion_cache_set : Text → Call
  stats_cache_get stats_cache_set : Text → Call
  -- k8s.io/kubernetes/pkg/volume
  get_metrics : Text → Call
  -- time.Now and math/rand, in the name of a temporary link
  unique_suffix : Call
  -- the wait of mountWithTimeout
  await_mount : Text → Call

abbrev pub Trace : Type 0
Trace = List Call

-- how the wait for a mount ends
pub data Wait : Type 0 where
  done timed_out canceled deadline : Wait

-- volume.Metrics, with what `AsInt64` makes of each quantity
pub record Metrics : Type 0 where
  pub available : Option ℤ
  pub capacity : Option ℤ
  pub used : Option ℤ
  pub inodes_free : Option ℤ
  pub inodes : Option ℤ
  pub inodes_used : Option ℤ

-- csi.VolumeUsage
pub record Usage : Type 0 where
  pub available : ℤ
  pub total : ℤ
  pub used : ℤ

-- csi.NodeGetVolumeStatsResponse: its usages in bytes and in inodes
pub record VolumeStats : Type 0 where
  pub bytes : Usage
  pub inodes : Usage

-- What the calls answer, the latest call first.
pub record Env : Type 0 where
  pub error : Trace → Call → Option OsError
  pub flag : Trace → Call → Bool
  pub text : Trace → Call → Text
  pub texts : Trace → Call → List Text
  pub dict : Trace → Call → Dict
  pub wait : Trace → Call → Wait
  pub metrics : Trace → Call → Metrics
  pub cached_stats : Trace → Call → Option VolumeStats
  pub visit : Visit

-- A mount that was still running when its request was answered.
pub record InFlight : Type 0 where
  pub lock_key : Text
  pub source : Text
  pub target : Text
  pub options : List Text
  pub sensitive : List Text
  pub volume_id : Text

-- what a driver process keeps
pub record World : Type 0 where
  pub trace : Trace
  pub locks : List Text
  pub in_flight : List InFlight

abbrev pub Run : Type 0 → Type 0 → Type 0
Run E A = Exec World E A

abbrev pub note : Call → World → World
note c w = record w { trace = c ∷ w.trace }

module _ (env : Env) {E : Type 0} where
  -- the error of a call, as a value
  unfoldable pub perform : Call → Run E (Option OsError)
  perform c w = (ok (env.error w.trace c), note c w)

  unfoldable pub perform_flag : Call → Run E (Option OsError × Bool)
  perform_flag c w = (ok (env.error w.trace c, env.flag w.trace c), note c w)

  unfoldable pub perform_text : Call → Run E (Option OsError × Text)
  perform_text c w = (ok (env.error w.trace c, env.text w.trace c), note c w)

  unfoldable pub perform_texts : Call → Run E (Option OsError × List Text)
  perform_texts c w = (ok (env.error w.trace c, env.texts w.trace c), note c w)

  unfoldable pub perform_dict : Call → Run E (Option OsError × Dict)
  perform_dict c w = (ok (env.error w.trace c, env.dict w.trace c), note c w)

  unfoldable pub perform_metrics : Call → Run E (Option OsError × Metrics)
  perform_metrics c w = (ok (env.error w.trace c, env.metrics w.trace c), note c w)

  -- `none` is nil
  unfoldable pub perform_stats : Call → Run E (Option OsError × Option VolumeStats)
  perform_stats c w = (ok (env.error w.trace c, env.cached_stats w.trace c), note c w)

  unfoldable pub perform_wait : Call → Run E Wait
  perform_wait c w = (ok (env.wait w.trace c), note c w)

-- `if err != nil { return err }`
unfoldable pub check_os : Option OsError → Run OsError (Unit {0})
unfolding pure raise
check_os none = pure tt
check_os (some e) = raise e
