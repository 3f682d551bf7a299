-- ===== src/Examples/Mappings.antt =====
-- The mounter over csi-proxy on concrete inputs.
use csi_driver_smb.Base.{◌≡◌, refl, true, none, some, [], ◌∷◌}
use csi_driver_smb.Text.{Text, codes}
use csi_driver_smb.Result.{ok}
use csi_driver_smb.CsiProxy.{Answers, Proxy, remote_source, smb_mount, smb_unmount}
use csi_driver_smb.CsiProxy.Removal.{Unreferenced, removals, smb_unmount-Unreferenced}
use csi_driver_smb.Examples.References.{no_md5, no_faults}

abbrev pub answers : Answers
answers = record {
  exists = ok true;
  mkdir = none;
  resolved = some (codes "10.0.0.1");
  new_mapping = none;
  remove_mapping = none;
  symlink = none;
  is_symlink = ok true;
  rmdir = none;
  read_link = ok (codes "\\\\10.0.0.1\\s\\d");
  on_change = no_faults;
  on_count = no_faults;
}

abbrev nothing : Proxy
nothing = record { references = []; calls = [] }

abbrev mounted : Proxy
mounted =
    (smb_mount no_md5 true answers (codes "//a.svc.cluster.local/s/d") (codes "c:\\t")
      (codes "u" ∷ []) (codes "p" ∷ []) (codes "v") nothing).1

mount_succeeds :
    smb_mount no_md5 true answers
      (codes "//a.svc.cluster.local/s/d")
      (codes "c:\\t")
      (codes "u" ∷ [])
      (codes "p" ∷ [])
      (codes "v")
      nothing
    ≡ (ok tt, mounted)
unfolding smb_mount csi_driver_smb.Exec.◌>>=◌ csi_driver_smb.Exec.check
    csi_driver_smb.CsiProxy.mapping_or_error csi_driver_smb.Refcount.get_root_mapping_path
    csi_driver_smb.Text.drop_empty csi_driver_smb.Text.split remote_source
    csi_driver_smb.Refcount.trim_backslash csi_driver_smb.Text.replace_byte
    csi_driver_smb.Text.fields_func csi_driver_smb.Text.text_eq csi_driver_smb.Text.has_prefix
    csi_driver_smb.Refcount.increment
mount_succeeds = refl

removal_asked :
    removals (smb_unmount no_md5 true answers (codes "c:\\t") (codes "v") mounted).1.calls
    ≡ codes "\\\\10.0.0.1\\s\\d" ∷ removals mounted.calls
unfolding smb_unmount smb_mount csi_driver_smb.Exec.◌>>=◌ csi_driver_smb.CsiProxy.drop_reference
    csi_driver_smb.CsiProxy.mapping_or_error csi_driver_smb.Refcount.get_root_mapping_path
    csi_driver_smb.Text.drop_empty csi_driver_smb.Text.split csi_driver_smb.Refcount.trim_backslash
    csi_driver_smb.Refcount.decrement csi_driver_smb.Exec.check remote_source
    csi_driver_smb.Text.replace_byte csi_driver_smb.Text.fields_func csi_driver_smb.Text.text_eq
    csi_driver_smb.Text.has_prefix csi_driver_smb.Refcount.increment
    csi_driver_smb.Refcount.reference_dir csi_driver_smb.FilePath.join_path
    csi_driver_smb.Text.trim_prefix csi_driver_smb.Text.to_lower
    csi_driver_smb.Refcount.get_volume_id_references_count
removal_asked = refl

smb_unmount-Unreferenced_example :
    Unreferenced
      (codes "\\\\10.0.0.1\\s\\d")
      (smb_unmount no_md5 true answers (codes "c:\\t") (codes "v") mounted).1.references
smb_unmount-Unreferenced_example =
    smb_unmount-Unreferenced no_md5 answers true (codes "c:\\t") (codes "v")
      (codes "\\\\10.0.0.1\\s\\d") mounted removal_asked
