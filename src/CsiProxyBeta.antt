-- ===== src/CsiProxyBeta.antt =====
-- The mounter over the v1beta API of csi-proxy: pkg/mounter/safe_mounter_v1beta_windows.go. The state
-- is what csi-proxy was asked for, the latest first; its answers are those of `Answers`.
pub mod Upgrade
use csi_driver_smb.Base.{
  Bool, true, false, not, ◌||◌, Option, none, some, List, [], ◌∷◌, is_empty, if◌then◌else◌,
}
use csi_driver_smb.Text.{Text}
use csi_driver_smb.FilePath.OnWindows.{dir_on_drive}
use csi_driver_smb.Result.{Result, ok, err}
use csi_driver_smb.Exec.{Exec, pure, check, ◌>>=◌, ◌>>◌}
use csi_driver_smb.World.{OsError, not_exist, other}
use csi_driver_smb.CsiProxy.{Answers, normalize_windows_path, windows_source, first_option}

-- fs.PathContext
pub data PathContext : Type 0 where
  plugin pod : PathContext

pub data BetaCall : Type 0 where
  path_exists is_mount_point_request : Text → BetaCall
  mkdir rmdir : PathContext → Text → BetaCall
  link_path : Text → Text → BetaCall
  new_smb_global_mapping : Text → Text → Text → Text → BetaCall

abbrev pub BetaMounter : Type 0 → Type 0
BetaMounter A = Exec (List BetaCall) OsError A

abbrev pub answer {ℓ} : {A : Type ℓ} → Option OsError → A → Result OsError A
answer none x = ok x
answer (some e) x = err e

unfoldable pub ask : BetaCall → Option OsError → BetaMounter (Unit {0})
ask c o calls = (answer o tt, c ∷ calls)

unfoldable pub ask_flag : BetaCall → Result OsError Bool → BetaMounter Bool
ask_flag c r calls = (r, c ∷ calls)

module _ (a : Answers) where
  unfoldable pub exists_path : Text → BetaMounter Bool
  exists_path path = ask_flag (path_exists (normalize_windows_path path)) a.exists

  unfoldable pub make_dir : Text → BetaMounter (Unit {0})
  make_dir path = ask (mkdir plugin (normalize_windows_path path)) a.mkdir

  unfoldable pub remove_dir : Text → BetaMounter (Unit {0})
  remove_dir path = ask (rmdir pod (normalize_windows_path path)) a.rmdir

  unfoldable pub link : Text → Text → BetaMounter (Unit {0})
  link source target =
      ask (link_path (normalize_windows_path source) (normalize_windows_path target)) a.symlink

  -- for a missing path the error is ErrNotExist
  unfoldable pub is_likely_not_mount_point : Text → BetaMounter Bool
  is_likely_not_mount_point path = do
    found ← exists_path path
    check found not_exist
    linked ← ask_flag (is_mount_point_request (normalize_windows_path path)) a.is_symlink
    pure (not linked)

  unfoldable pub is_mount_point : Text → BetaMounter Bool
  is_mount_point file = do not_mounted ← is_likely_not_mount_point file; pure (not not_mounted)

  unfoldable pub smb_mount : Text → Text → List Text → List Text → BetaMounter (Unit {0})
  smb_mount source target mount_options sensitive_mount_options = do
    check (not (is_empty mount_options || is_empty sensitive_mount_options)) other
    let parent_dir = dir_on_drive target
    parent_exists ← exists_path parent_dir
    if parent_exists then pure tt else make_dir parent_dir
    ask
        (new_smb_global_mapping (normalize_windows_path target) (windows_source a.resolved source)
          (first_option mount_options) (first_option sensitive_mount_options))
        a.new_mapping

  -- the mapping stays
  unfoldable pub smb_unmount : Text → BetaMounter (Unit {0})
  smb_unmount target = remove_dir target
