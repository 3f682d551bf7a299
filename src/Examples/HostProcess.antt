-- ===== src/Examples/HostProcess.antt =====
-- The unmount of a host process: a target whose mapping a second staged volume uses.
use csi_driver_smb.Base.{◌≡◌, refl, true, none, List, [], ◌∷◌, ◌++◌}
use csi_driver_smb.Text.{codes, replace_byte}
use csi_driver_smb.CsiProxy.{normalize_windows_path}
use csi_driver_smb.Result.{Result, ok}
use csi_driver_smb.World.{OsError}
use csi_driver_smb.HostProcess.Calls.{Machine, MachineCall}
use csi_driver_smb.HostProcess.Mapped.{changes, expected_changes, Mapped, Linked}
use csi_driver_smb.HostProcess.Mounted.{smb_mount-Linked}
use csi_driver_smb.HostProcess.{smb_mount, smb_unmount}
use csi_driver_smb.HostProcess.Sharing.{removals}
use csi_driver_smb.HostProcess.Removal.{expected, smb_unmount-removals}

abbrev machine : Machine
machine = record {
  error = λ c. none;
  text = λ c. codes "\\\\server\\share";
  is_link = λ c. true;
  entries = λ c.
      record { name = codes "pv1"; is_dir = true }
      ∷ record { name = codes "pv2"; is_dir = true }
      ∷ [];
}

smb_unmount-removals_example :
    removals (smb_unmount machine (codes "/t") []).1
    ≡ expected machine (normalize_windows_path (codes "/t")) ++ removals []
smb_unmount-removals_example = smb_unmount-removals machine (codes "/t") []

nothing_removed : removals (smb_unmount machine (codes "/t") []).1 ≡ []
unfolding smb_unmount csi_driver_smb.Exec.◌>>=◌
    csi_driver_smb.HostProcess.Mappings.get_remote_server_from_target
    csi_driver_smb.HostProcess.Calls.ask_text csi_driver_smb.Exec.check
    csi_driver_smb.HostProcess.Calls.tried
    csi_driver_smb.HostProcess.Mappings.check_for_duplicate_smb_mounts
    csi_driver_smb.HostProcess.Calls.ask_entries csi_driver_smb.HostProcess.Mappings.any_duplicates
    csi_driver_smb.HostProcess.Mappings.duplicates csi_driver_smb.Text.equal_fold
    csi_driver_smb.FilePath.OnWindows.clean_on_drive
    csi_driver_smb.HostProcess.Mappings.global_mount_path
    csi_driver_smb.FilePath.OnWindows.join_on_drive csi_driver_smb.FilePath.clean
    normalize_windows_path csi_driver_smb.HostProcess.Calls.ask_link csi_driver_smb.Text.trim_space
    csi_driver_smb.HostProcess.Files.rmdir csi_driver_smb.HostProcess.Files.valid_path
    csi_driver_smb.Exec.wrap csi_driver_smb.Windows.validate_path_windows
    csi_driver_smb.Text.contains csi_driver_smb.HostProcess.Calls.ask
nothing_removed = refl

-- the target is linked, and its mapping made
abbrev mounting : Result OsError (Unit {0}) × List MachineCall
mounting =
    smb_mount machine (codes "//server/share") (codes "c:\\k\\t") (codes "u" ∷ []) (codes "p" ∷ [])
      []

mounting-succeeds : mounting ≡ (ok tt, mounting.1)
unfolding smb_mount csi_driver_smb.Exec.◌>>=◌ csi_driver_smb.Exec.check
    csi_driver_smb.HostProcess.Files.path_exists csi_driver_smb.HostProcess.Files.valid_path
    csi_driver_smb.Exec.wrap csi_driver_smb.Windows.validate_path_windows normalize_windows_path
    csi_driver_smb.Text.has_prefix replace_byte csi_driver_smb.FilePath.OnWindows.dir_on_drive
    csi_driver_smb.FilePath.dir csi_driver_smb.Text.text_eq csi_driver_smb.Text.contains
    csi_driver_smb.HostProcess.Files.path_is_there csi_driver_smb.HostProcess.Calls.ask
    csi_driver_smb.HostProcess.Calls.tried csi_driver_smb.HostProcess.Mappings.is_smb_mapped
    csi_driver_smb.HostProcess.Calls.ask_text csi_driver_smb.Text.equal_fold
    csi_driver_smb.Text.trim_space csi_driver_smb.HostProcess.Mappings.new_smb_global_mapping
mounting-succeeds = refl

smb_mount-Linked_example :
    let remote = replace_byte b'/' b'\\' (codes "//server/share") in
    (changes mounting.1 ≡ expected_changes machine remote (codes "u") (codes "p") ++ changes [])
    × Mapped machine remote (codes "u") (codes "p")
    × Linked machine remote (normalize_windows_path (codes "c:\\k\\t")) mounting.1
smb_mount-Linked_example =
    smb_mount-Linked machine (codes "//server/share") (codes "c:\\k\\t") (codes "u") (codes "p") []
      [] [] mounting.1 mounting-succeeds
