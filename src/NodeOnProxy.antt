-- ===== src/NodeOnProxy.antt =====
-- The node service of Windows over the mounter of CsiProxy: what the calls of d.mounter in
-- nodeserver.go and smb_common_windows.go do there, and what they answer.
pub mod Spared
use csi_driver_smb.Base.{Bool, true, false, Option, none, some, List, [], ◌∷◌, if◌then◌else◌}
use csi_driver_smb.Text.{Text}
use csi_driver_smb.Result.{Result, ok, err}
use csi_driver_smb.Exec.{pure, ◌>>=◌, ◌>>◌}
use csi_driver_smb.World.{
  OsError, not_exist, Call, smb_mount, smb_unmount, proxy_rmdir, proxy_exists,
  is_likely_not_mount_point, unmount, mount, Trace, Env,
}
use csi_driver_smb.CsiProxy.{Answers, Proxy, Mounter, exists_path, remove_dir, link}
use csi_driver_smb.CsiProxy

-- a mounter that has done nothing yet
abbrev pub unused : Proxy
unused = record { references = []; calls = [] }

is_error : Result OsError Bool → Option OsError
is_error (ok _) = none
is_error (err e) = some e

-- with ErrNotExist a path is likely not a mount point
flag_of : Result OsError Bool → Bool
flag_of (ok b) = b
flag_of (err not_exist) = true
flag_of (err _) = false

-- the calls that go to the mounter
abbrev pub on_mounter : Call → Bool
on_mounter (smb_mount _ _ _ _ _ _) = true
on_mounter (smb_unmount _ _) = true
on_mounter (proxy_rmdir _) = true
on_mounter (proxy_exists _) = true
on_mounter (is_likely_not_mount_point _) = true
on_mounter (unmount _) = true
on_mounter (mount _ _ _ _) = true
on_mounter _ = false

module _ (md5 : Text → Text) (remove_smb_mapping : Bool) where
  -- What the mounter does at a call; the flag is that of the two calls that answer one. Unmount and
  -- the cleaning of a publish path remove the directory, and a bind mount makes a link.
  unfoldable pub mounter_call : Answers → Call → Mounter Bool
  mounter_call a (smb_mount source target _ options sensitive volume_id) = do
    CsiProxy.smb_mount md5 remove_smb_mapping a source target options sensitive volume_id
    pure false
  mounter_call a (smb_unmount target volume_id) = do
    CsiProxy.smb_unmount md5 remove_smb_mapping a target volume_id
    pure false
  mounter_call a (proxy_rmdir path) = do remove_dir a path; pure false
  mounter_call a (proxy_exists path) = exists_path a path
  mounter_call a (is_likely_not_mount_point path) = CsiProxy.is_likely_not_mount_point a path
  mounter_call a (unmount path) = do remove_dir a path; pure false
  mounter_call a (mount source target _ _) = do link a source target; pure false
  mounter_call a _ = pure false

  module _ (answers : Trace → Call → Answers) where
    -- the mounter after these calls
    unfoldable pub proxy_after : Trace → Proxy
    unfolding mounter_call
    proxy_after [] = unused
    proxy_after (c ∷ calls) = (mounter_call (answers calls c) c (proxy_after calls)).1

    unfoldable pub answer : Trace → Call → Result OsError Bool
    unfolding proxy_after
    answer calls c = (mounter_call (answers calls c) c (proxy_after calls)).0

    -- the world in which the calls of the mounter are answered by it
    unfoldable pub over_proxy : Env → Env
    unfolding answer is_error flag_of
    over_proxy env = record env {
      error = λ calls c. if on_mounter c then is_error (answer calls c) else env.error calls c;
      flag = λ calls c. if on_mounter c then flag_of (answer calls c) else env.flag calls c;
    }
