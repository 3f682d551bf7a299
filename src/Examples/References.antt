-- ===== src/Examples/References.antt =====
-- References to SMB mappings on concrete inputs. The identity stands for MD5.
use csi_driver_smb.Base.{◌≡◌, refl, false, none, some, List, [], ◌∷◌, arith}
use csi_driver_smb.Base.Int.{pos}
use csi_driver_smb.Text.{Text, codes, to_lower, join}
use csi_driver_smb.Result.{ok}
use csi_driver_smb.World.{OsError}
use csi_driver_smb.Windows.{backslash}
use csi_driver_smb.Refcount.{
  Faults, unc_root, get_root_mapping_path, reference_dir, get_md5, get_volume_id_references_count,
}
use csi_driver_smb.Refcount.Mapping.{get_root_mapping_path-join}
use csi_driver_smb.Refcount.Counts.{
  Step, incremented, decremented, run, referred, get_volume_id_references_count-unreferred,
  unreferred-get_volume_id_references_count,
}

get_root_mapping_path-join_example :
    get_root_mapping_path
      (join ([] ∷ [] ∷ codes "Host" ∷ codes "Share" ∷ codes "sub" ∷ []) backslash)
    ≡ ok (to_lower (unc_root (codes "Host") (codes "Share")))
get_root_mapping_path-join_example =
    get_root_mapping_path-join b'H' b'S' (codes "ost") (codes "hare") (codes "sub" ∷ []) ground
      arith

abbrev pub no_md5 : Text → Text
no_md5 s = s

abbrev pub no_faults : Faults
no_faults = record {
  mkdir_all = none;
  create = none;
  write_string = none;
  remove = none;
  read_dir = none;
}

-- a reference is made, a second one is made without its text, and both are removed
abbrev steps : List Step
steps =
    decremented no_faults (codes "\\\\h\\s") (codes "v")
    ∷ decremented no_faults (codes "\\\\h\\s") (codes "w")
    ∷ incremented (record no_faults { write_string = some OsError.other }) (codes "\\\\h\\s")
        (codes "\\\\h\\s\\d") (codes "w")
    ∷ incremented no_faults (codes "\\\\h\\s") (codes "\\\\h\\s\\d") (codes "v")
    ∷ []

counted : get_volume_id_references_count no_faults (codes "\\\\h\\s") (run no_md5 steps) ≡ pos 0
unfolding get_volume_id_references_count run csi_driver_smb.Refcount.decrement
    csi_driver_smb.Exec.◌>>=◌ csi_driver_smb.Refcount.increment csi_driver_smb.Text.text_eq
    reference_dir csi_driver_smb.FilePath.join_path csi_driver_smb.Text.trim_prefix to_lower
counted = refl

get_volume_id_references_count-unreferred_example :
    referred no_md5 (reference_dir (codes "\\\\h\\s")) (get_md5 no_md5 (codes "v")) steps ≡ false
get_volume_id_references_count-unreferred_example =
    get_volume_id_references_count-unreferred no_md5 no_faults steps (codes "\\\\h\\s") (codes "v")
      counted

unreferred : (f : Text) → referred no_md5 (reference_dir (codes "\\\\h\\s")) f steps ≡ false
unfolding referred
unreferred f = ground arith

unreferred-get_volume_id_references_count_example :
    get_volume_id_references_count no_faults (codes "\\\\h\\s") (run no_md5 steps) ≡ pos 0
unreferred-get_volume_id_references_count_example =
    unreferred-get_volume_id_references_count no_md5 no_faults steps (codes "\\\\h\\s") refl refl
      unreferred
