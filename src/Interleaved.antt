-- ===== src/Interleaved.antt =====
-- Handlers that overlap: what they do to the locks of pkg/smb/volume_lock.go and to the mounts that
-- outlive their request, one action at a time and in any order.
pub mod Exclusion
pub mod Handlers
use csi_driver_smb.Base.{◌≡◌, true, false, List, [], ◌∷◌, ◌++◌}
use csi_driver_smb.Text.{Text}
use csi_driver_smb.World.{Call, InFlight, World, note}
use csi_driver_smb.Locks.{try_acquire, release}
use csi_driver_smb.Driver.{new_driver}
use csi_driver_smb.Driver.Kept.{ended}

-- the state of the driver, with the keys that handlers hold at the moment
pub record Shared : Type 0 where
  pub world : World
  pub held : List Text

-- an action of one of the handlers, or of the goroutine that waits for a mount
pub data Action (s t : Shared) : Type 0 where
  called : (c : Call) → t ≡ record s { world = note c s.world } → Action s t
  refused : (k : Text) → (try_acquire s.world.locks k).0 ≡ false → t ≡ s → Action s t
  acquired :
      (k : Text)
      → (try_acquire s.world.locks k).0 ≡ true
      → t ≡ record {
        world = record s.world { locks = (try_acquire s.world.locks k).1 };
        held = k ∷ s.held;
      }
      → Action s t
  released :
      (before : List Text) (k : Text) (after : List Text)
      → s.held ≡ before ++ k ∷ after
      → t ≡ record {
        world = record s.world { locks = release s.world.locks k };
        held = before ++ after;
      }
      → Action s t
  -- the handler answers, and leaves its lock to the mount
  handed_over :
      (before : List Text) (f : InFlight) (after : List Text)
      → s.held ≡ before ++ f.lock_key ∷ after
      → t ≡ record {
        world = record s.world { in_flight = f ∷ s.world.in_flight };
        held = before ++ after;
      }
      → Action s t
  finished :
      (before : List InFlight) (f : InFlight) (after : List InFlight)
      → s.world.in_flight ≡ before ++ f ∷ after
      → t ≡ record s { world = ended f s.world }
      → Action s t

-- actions one after the other
pub data Actions (s : Shared) : Shared → Type 0 where
  here : Actions s s
  then_act : {t u : Shared} → Actions s t → Action t u → Actions s u

abbrev pub idle : Shared
idle = record { world = new_driver; held = [] }
