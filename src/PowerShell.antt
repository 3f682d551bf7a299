-- ===== src/PowerShell.antt =====
-- pkg/util/util.go: the commands of PowerShell, of which only some run at a time, and
-- WaitUntilTimeout.
pub mod Bounded
use csi_driver_smb.Base.{ℕ, ◌+◌, ◌-◌, ◌<◌, ◌≡◌, Option, List, [], ◌∷◌, ◌++◌}

-- the capacity of powershellCmdSem
abbrev pub slots : ℕ
slots = 3

-- a call of RunPowershellCmd that has not returned: at the send on the channel, or past it
pub data Phase : Type 0 where
  waiting running : Phase

-- how many values the channel holds, and the calls
pub record Shell : Type 0 where
  pub taken : ℕ
  pub calls : List Phase

-- A send blocks while the channel is full, and a receive while it is empty.
pub data Move (s t : Shell) : Type 0 where
  call : t ≡ record s { calls = Phase.waiting ∷ s.calls } → Move s t
  start :
      (before after : List Phase)
      → s.calls ≡ before ++ Phase.waiting ∷ after
      → s.taken < slots
      → t ≡ record { taken = s.taken + 1; calls = before ++ Phase.running ∷ after }
      → Move s t
  return :
      (before after : List Phase)
      → s.calls ≡ before ++ Phase.running ∷ after
      → 0 < s.taken
      → t ≡ record { taken = s.taken - 1; calls = before ++ after }
      → Move s t

abbrev pub quiet : Shell
quiet = record { taken = 0; calls = [] }

pub data Reached : Shell → Type 0 where
  begun : Reached quiet
  moved : {s t : Shell} → Reached s → Move s t → Reached t

-- what the select of WaitUntilTimeout receives; if both are ready, it may be either
pub data Received : Type 0 where
  done elapsed : Received

unfoldable pub wait_until_timeout {ℓ} : {E : Type ℓ} → Received → Option E → Option E → Option E
wait_until_timeout done exec_error timeout_error = exec_error
wait_until_timeout elapsed exec_error timeout_error = timeout_error
