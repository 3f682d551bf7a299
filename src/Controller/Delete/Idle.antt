-- ===== src/Controller/Delete/Idle.antt =====
-- Deletions that leave the share alone.
use csi_driver_smb.Base.{◌≡◌, refl, Bool, true, false, not, ◌&&◌, none, List, [], ◌∷◌, is_empty}
use csi_driver_smb.Text.{Text, equal_fold}
use csi_driver_smb.Names.{retain}
use csi_driver_smb.Result.{Reason, ok, err}
use csi_driver_smb.Exec.{pure, check, check_none, finally, ◌>>=◌}
use csi_driver_smb.World.{Call, deletion_cache_get, Env, World, perform_flag, note}
use csi_driver_smb.Config.{Config}
use csi_driver_smb.Locks.{has, try_acquire, release}
use csi_driver_smb.Node.Stage.{acquire_lock, release_lock}
use csi_driver_smb.Volume.Defs.{SmbVolume, smb_vol_from_id}
use csi_driver_smb.Controller.Delete.{
  DeleteRequest, on_delete_policy, delete_locked, delete_parsed, delete_volume,
}

-- There are secrets to mount the share with, and the volume is not to be retained.
abbrev pub reaches_share : Config → SmbVolume → DeleteRequest → Bool
reaches_share cfg vol req =
    not (is_empty req.secrets)
    && not (equal_fold (on_delete_policy cfg.default_on_delete_policy vol) retain)

-- the state after a deletion that made these calls, the last one first
abbrev pub after_calls : List Call → Text → World → World
after_calls [] k w = record w { locks = release (k ∷ w.locks) k }
after_calls (c ∷ cs) k w = note c (after_calls cs k w)

module _ (env : Env) (cfg : Config) (req : DeleteRequest) (w : World)
    (named : is_empty req.volume_id ≡ false) where
  -- An id that cannot be read: the volume counts as deleted, and nothing happens.
  pub delete_volume-unreadable :
      (e : Reason)
      → smb_vol_from_id req.volume_id ≡ err e
      → delete_volume env cfg req w ≡ (ok tt, w)
  unfolding delete_volume delete_parsed check ◌>>=◌ pure
  delete_volume-unreadable e h = rw (named, h) refl

  module _ (vol : SmbVolume) (read : smb_vol_from_id req.volume_id ≡ ok vol)
      (free : has w.locks req.volume_id ≡ false) where
    -- A deletion that is in the cache succeeds with one call, that of the cache.
    pub delete_volume-cached :
        reaches_share cfg vol req ≡ true
        → env.error w.trace (deletion_cache_get req.volume_id) ≡ none
        → env.flag w.trace (deletion_cache_get req.volume_id) ≡ true
        → delete_volume env cfg req w
          ≡ (ok tt, after_calls (deletion_cache_get req.volume_id ∷ []) req.volume_id w)
    unfolding delete_volume delete_parsed delete_locked perform_flag check check_none ◌>>=◌ pure
        acquire_lock release_lock try_acquire finally
    delete_volume-cached h he hf = rw (named, read, free, h, he, hf) refl
