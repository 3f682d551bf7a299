-- ===== src/HostProcess/Mounted.antt =====
-- What a successful mount of a host process has done.
use csi_driver_smb.Base.{
  ◌≡◌, refl, ◌∙◌, ap, Bool, true, not, List, ◌∷◌, ◌++◌, is_empty, if◌then◌else◌,
}
use csi_driver_smb.Text.{Text, replace_byte}
use csi_driver_smb.FilePath.{slash}
use csi_driver_smb.FilePath.OnWindows.{backslash, dir_on_drive}
use csi_driver_smb.Result.{ok}
use csi_driver_smb.Exec.{pure, check}
use csi_driver_smb.Exec.Keeps.{
  Keeps, Keeps-pure, Keeps-if, Keeps-bind, Keeps-lift, Keeps-wrap, Keeps-check,
}
use csi_driver_smb.Exec.Runs.{bind-ok}
use csi_driver_smb.World.{other}
use csi_driver_smb.CsiProxy.{normalize_windows_path, first_option}
use csi_driver_smb.HostProcess.Calls.{MachineCall, Machine, ask}
use csi_driver_smb.HostProcess.Files.{valid_path, path_exists, path_is_there}
use csi_driver_smb.HostProcess.{exists_path, make_dir, smb_mount}
use csi_driver_smb.HostProcess.Mapped.{changes, expected_changes, Mapped, Linked, map_and_link-ok}

module _ (a : Machine) where
  -- what is done to the path above the target changes no mapping
  module _ (base : List MachineCall) (path : Text) where
    Keeps-exists_path : Keeps (λ calls. changes calls ≡ base) (exists_path a path)
    unfolding exists_path path_exists path_is_there valid_path ask
    Keeps-exists_path =
        Keeps-bind _ _ (Keeps-wrap _ _ (Keeps-lift _)) λ _. record { after = λ calls h. h }

    Keeps-make_dir :
        (found : Bool)
        → Keeps (λ calls. changes calls ≡ base) (if found then pure tt else make_dir a path)
    unfolding make_dir ask
    Keeps-make_dir found = Keeps-if found _ _ (Keeps-pure tt) (record { after = λ calls h. h })

  -- A successful mount has linked the target to the remote path, which is mapped: it left a mapping that
  -- is valid, removed one that is not valid before it made it again, and made a missing one. It asked
  -- for no other change of mappings.
  pub smb_mount-Linked :
      (source target user password : Text) (options sensitive : List Text)
      (cs cs' : List MachineCall)
      → smb_mount a source target (user ∷ options) (password ∷ sensitive) cs ≡ (ok tt, cs')
      → let remote = replace_byte slash backslash source in
        (changes cs' ≡ expected_changes a remote user password ++ changes cs)
        × Mapped a remote user password
        × Linked a remote (normalize_windows_path target) cs'
  unfolding smb_mount first_option
  smb_mount-Linked source target user password options sensitive cs cs' h =
      let base = changes cs in
      let above = dir_on_drive target in
      let remote = replace_byte slash backslash source in
      let (_, _, h₁) = bind-ok (check true other) _ cs cs' tt h in
      let s₁ = (check {S = List MachineCall} true other cs).1 in
      let k₁ = (Keeps-check {P = λ calls. changes calls ≡ base} true other).after cs refl in
      let (found, _, h₂) = bind-ok (exists_path a above) _ s₁ cs' tt h₁ in
      let s₂ = (exists_path a above s₁).1 in
      let k₂ = (Keeps-exists_path base above).after s₁ k₁ in
      let (_, _, h₃) = bind-ok (if found then pure tt else make_dir a above) _ s₂ cs' tt h₂ in
      let s₃ = ((if found then pure tt else make_dir a above) s₂).1 in
      let k₃ = (Keeps-make_dir base above found).after s₂ k₂ in
      let (_, _, h₄) = bind-ok (check (not (is_empty remote)) other) _ s₃ cs' tt h₃ in
      let k₄ =
        (Keeps-check {P = λ calls. changes calls ≡ base} (not (is_empty remote)) other).after s₃
          k₃ in
      let (same, mapped, linked) =
        map_and_link-ok a remote (normalize_windows_path target) user password _ cs' h₄ in
      (same ∙ ap (λ cs. expected_changes a remote user password ++ cs) k₄, mapped, linked)
