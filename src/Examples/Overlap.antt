-- ===== src/Examples/Overlap.antt =====
-- Handlers and commands that overlap.
use csi_driver_smb.Base.{
  ◌+◌, ◌-◌, ◌≤◌, ◌≡◌, refl, ◌⊎◌, false, ◌||◌, ◌&&◌, List, [], ◌∷◌, ◌++◌, arith,
}
use csi_driver_smb.Text.{codes}
use csi_driver_smb.Locks.{has, try_acquire}
use csi_driver_smb.World.{lstat, timed_out}
use csi_driver_smb.Driver.{Request, serve, new_driver}
use csi_driver_smb.Driver.Locking.{keys, Fresh}
use csi_driver_smb.Interleaved.{Shared, called, acquired, Actions, here, then_act, idle}
use csi_driver_smb.Interleaved.Exclusion.{Actions-Fresh}
use csi_driver_smb.Interleaved.Handlers.{serve-Actions}
use csi_driver_smb.PowerShell.{
  Phase, running, waiting, Shell, Move, call, start, Reached, begun, moved,
}
use csi_driver_smb.PowerShell.Bounded.{commands, Reached-commands}
use csi_driver_smb.Examples.World.{quiet, linux, stage_request}

-- two handlers, each with a lock of its own
overlapping : (s : Shared) × Actions idle s
unfolding try_acquire has csi_driver_smb.Text.text_eq
overlapping = (
  _,
  then_act (then_act (then_act here (acquired (codes "a") refl refl)) (called (lstat []) refl))
      (acquired (codes "b") refl refl),
)

Actions-Fresh_example :
    Fresh overlapping.0.held
    × ((has overlapping.0.held (codes "a") && has (keys overlapping.0.world.in_flight) (codes "a"))
        ≡ false)
    × (has overlapping.0.world.locks (codes "a") ≡ (
        has overlapping.0.held (codes "a") || has (keys overlapping.0.world.in_flight) (codes "a")))
Actions-Fresh_example = Actions-Fresh overlapping.0 (codes "a") overlapping.1

-- a mount that outlives its request, while another handler holds a lock
serve-Actions_example :
    Actions
      (record { world = new_driver; held = codes "a" ∷ [] })
      (record {
        world = serve (quiet timed_out) linux (Request.stage stage_request) new_driver;
        held = codes "a" ∷ [];
      })
serve-Actions_example =
    serve-Actions (quiet timed_out) linux (Request.stage stage_request) (codes "a" ∷ []) new_driver

-- one command runs, and one call waits
abbrev two_calls : Shell
two_calls = record { taken = 1; calls = waiting ∷ running ∷ [] }

two_calls-Reached : Reached two_calls
two_calls-Reached =
    moved (moved (moved begun (call refl)) (start [] [] refl (omega arith) refl)) (call refl)

Reached-commands_example :
    (commands two_calls.calls ≤ 3)
    × ((two_calls.calls ≡ [])
        ⊎ ((before : List Phase) × (after : List Phase) × (two_calls.calls
              ≡ before ++ waiting ∷ after)
            × Move two_calls
                (record { taken = two_calls.taken + 1; calls = before ++ running ∷ after }))
        ⊎ ((before : List Phase) × (after : List Phase) × (two_calls.calls
              ≡ before ++ running ∷ after)
            × Move two_calls (record { taken = two_calls.taken - 1; calls = before ++ after })))
Reached-commands_example = Reached-commands two_calls two_calls-Reached
