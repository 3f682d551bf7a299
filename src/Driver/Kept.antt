-- ===== src/Driver/Kept.antt =====
-- Invariants of a driver process.
use csi_driver_smb.Base.{◌≡◌, List, []}
use csi_driver_smb.Text.{Text, codes}
use csi_driver_smb.Result.{ok}
use csi_driver_smb.Exec.{finally, ◌>>=◌}
use csi_driver_smb.World.{Env, InFlight, World}
use csi_driver_smb.Locks.{release}
use csi_driver_smb.Config.{Config}
use csi_driver_smb.Invariant.{Closed}
use csi_driver_smb.Volume.Defs.{SmbVolume, smb_vol_from_id}
use csi_driver_smb.Node.Mounter.Kept.{Keeps-mount_volume}
use csi_driver_smb.Node.Stage.{without, release_lock, end_in_flight, finish_mount}
use csi_driver_smb.Node.Stage.Kept.{Keeps-node_stage_volume, Keeps-node_unstage_volume}
use csi_driver_smb.Node.Publish.Kept.{Keeps-node_publish_volume, Keeps-node_unpublish_volume}
use csi_driver_smb.Controller.Create.Kept.{Keeps-create_volume}
use csi_driver_smb.Controller.Delete.Kept.{Bears, Keeps-delete_volume}
use csi_driver_smb.Driver.{Request, serve, Reached, started, served, finished, new_driver}

-- a mount comes to its end: its lock and its entry go
abbrev pub ended : InFlight → World → World
ended f w = record w {
  locks = release w.locks f.lock_key;
  in_flight = without f.lock_key w.in_flight;
}

module _ (env : Env) (cfg : Config) {P : List Text → World → Type 0} (closed : Closed cfg P)
    (bears : (id : Text) (vol : SmbVolume) → smb_vol_from_id id ≡ ok vol → Bears cfg P vol) where
  pub serve-keeps :
      (held : List Text) (req : Request) (w : World) → P held w → P held (serve env cfg req w)
  unfolding serve
  serve-keeps held (Request.create req) w h =
      (Keeps-create_volume env cfg closed held req).after w h
  serve-keeps held (Request.delete req) w h =
      (Keeps-delete_volume env cfg closed req (bears req.volume_id) held).after w h
  serve-keeps held (Request.stage req) w h =
      (Keeps-node_stage_volume env cfg closed.guarded held req).after w h
  serve-keeps held (Request.unstage req) w h =
      (Keeps-node_unstage_volume env cfg closed.guarded held req
          (closed.unmounted req.volume_id)).after
        w h
  serve-keeps held (Request.publish req) w h =
      (Keeps-node_publish_volume env cfg closed.guarded held req).after w h
  serve-keeps held (Request.unpublish req) w h =
      (Keeps-node_unpublish_volume env cfg closed.guarded held req).after w h

  finish_mount-keeps :
      ((f : InFlight) (w : World) → P [] w → P [] (ended f w))
      → (f : InFlight) (w : World) → P [] w
      → P [] (finish_mount env cfg f w).1
  unfolding finish_mount finally release_lock end_in_flight ◌>>=◌
  finish_mount-keeps ending f w h = ending f _ (
      (Keeps-mount_volume env (closed.guarded.borne.ordinary []) cfg.windows f.source f.target
          (codes "cifs") f.options f.sensitive f.volume_id).after
        w h)

  -- What the start, every request and the end of every mount keep holds of each state.
  pub Reached-keeps :
      P [] new_driver
      → ((f : InFlight) (w : World) → P [] w → P [] (ended f w))
      → (w : World) → Reached env cfg w
      → P [] w
  Reached-keeps start ending w started = start
  Reached-keeps start ending w (served {w = w₀} r req) =
      serve-keeps [] req w₀ (Reached-keeps start ending w₀ r)
  Reached-keeps start ending w (finished {w = w₀} r f m) =
      finish_mount-keeps ending f w₀ (Reached-keeps start ending w₀ r)
