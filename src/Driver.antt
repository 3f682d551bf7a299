-- ===== src/Driver.antt =====
-- A driver process: the requests it serves one after the other, and the mounts that outlive their
-- request.
pub mod Kept
pub mod Locking
pub mod Removal
pub mod Refusal
pub mod Drained
use csi_driver_smb.Base.{List, [], ◌∷◌}
use mathlib.Core.List.{Mem}
use csi_driver_smb.Text.{Text}
use csi_driver_smb.World.{Env, InFlight, World}
use csi_driver_smb.Locks.{new_volume_locks}
use csi_driver_smb.Config.{Config}
use csi_driver_smb.Node.Stage.{
  StageRequest, UnstageRequest, node_stage_volume, node_unstage_volume, finish_mount,
}
use csi_driver_smb.Node.Publish.{
  PublishRequest, UnpublishRequest, node_publish_volume, node_unpublish_volume,
}
use csi_driver_smb.Controller.Create.{CreateRequest, create_volume}
use csi_driver_smb.Controller.Delete.{DeleteRequest, delete_volume}

pub data Request : Type 0 where
  create : CreateRequest → Request
  delete : DeleteRequest → Request
  stage : StageRequest → Request
  unstage : UnstageRequest → Request
  publish : PublishRequest → Request
  unpublish : UnpublishRequest → Request

-- NewDriver
abbrev pub new_driver : World
new_driver = record { trace = []; locks = new_volume_locks; in_flight = [] }

module _ (env : Env) (cfg : Config) where
  -- the state after a request, whatever its answer
  unfoldable pub serve : Request → World → World
  serve (create req) w = (create_volume env cfg req w).1
  serve (delete req) w = (delete_volume env cfg req w).1
  serve (stage req) w = (node_stage_volume env cfg req w).1
  serve (unstage req) w = (node_unstage_volume env cfg req w).1
  serve (publish req) w = (node_publish_volume env cfg req w).1
  serve (unpublish req) w = (node_unpublish_volume env cfg req w).1

  -- The states of a process: it serves a request, or a mount that was still running ends.
  pub data Reached : World → Type 0 where
    started : Reached new_driver
    served : {w : World} → Reached w → (req : Request) → Reached (serve req w)
    finished :
        {w : World}
        → Reached w
        → (f : InFlight) → Mem f w.in_flight
        → Reached (finish_mount env cfg f w).1
