-- ===== src/HostProcess/Calls.antt =====
-- What the mounter of a host process asks of the machine during one of its calls, and what it
-- answers: the file system, and the commands of PowerShell.
use csi_driver_smb.Base.{Bool, Option, none, some, List, ◌∷◌}
use csi_driver_smb.Text.{Text}
use csi_driver_smb.Result.{Result, ok, err}
use csi_driver_smb.Exec.{Exec}
use csi_driver_smb.World.{OsError}

pub data MachineCall : Type 0 where
  lstat read_link read_dir mkdir_all remove_all remove : Text → MachineCall
  symlink : Text → Text → MachineCall
  -- Get-SmbGlobalMapping, Remove-SmbGlobalMapping, Test-Path, at a remote path
  get_mapping remove_mapping test_path : Text → MachineCall
  -- New-SmbGlobalMapping, at a remote path, a user and a password
  new_mapping : Text → Text → Text → MachineCall

-- fs.DirEntry
pub record DirEntry : Type 0 where
  pub name : Text
  pub is_dir : Bool

-- The answers during one call. No call of the machine is made twice in it, unless a directory lists
-- a name twice.
pub record Machine : Type 0 where
  pub error : MachineCall → Option OsError
  -- what PowerShell printed, or what a link points to
  pub text : MachineCall → Text
  -- whether the file that Lstat looked at is a link
  pub is_link : MachineCall → Bool
  pub entries : MachineCall → List DirEntry

-- the calls, the latest first
abbrev pub Machined : Type 0 → Type 0
Machined A = Exec (List MachineCall) OsError A

abbrev pub answered {ℓ} : {A : Type ℓ} → Option OsError → A → Result OsError A
answered none x = ok x
answered (some e) x = err e

module _ (a : Machine) where
  unfoldable pub ask : MachineCall → Machined (Unit {0})
  ask c calls = (answered (a.error c) tt, c ∷ calls)

  unfoldable pub ask_text : MachineCall → Machined Text
  ask_text c calls = (answered (a.error c) (a.text c), c ∷ calls)

  unfoldable pub ask_link : MachineCall → Machined Bool
  ask_link c calls = (answered (a.error c) (a.is_link c), c ∷ calls)

  unfoldable pub ask_entries : MachineCall → Machined (List DirEntry)
  ask_entries c calls = (answered (a.error c) (a.entries c), c ∷ calls)

abbrev pub value_or {ℓ} : {A : Type ℓ} → A → Result OsError A → A
value_or x (ok y) = y
value_or x (err _) = x

-- the value of an action, or another one if it fails; the error is logged only
unfoldable pub tried : {A : Type 0} → A → Machined A → Machined A
tried x m calls = let (r, calls') = m calls in (ok (value_or x r), calls')
