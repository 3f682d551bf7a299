-- ===== src/Examples/Beta.antt =====
-- The v1beta mounter beside the v1 mounter.
use csi_driver_smb.Base.{◌≡◌, refl, false, [], ◌∷◌}
use csi_driver_smb.Text.{codes}
use csi_driver_smb.Refcount.{trim_backslash}
use csi_driver_smb.CsiProxy
use csi_driver_smb.CsiProxy.{windows_source}
use csi_driver_smb.CsiProxyBeta.{smb_mount, smb_unmount}
use csi_driver_smb.CsiProxyBeta.Upgrade.{upgraded, smb_mount-upgrade}
use csi_driver_smb.Examples.Mappings.{answers}
use csi_driver_smb.Examples.References.{no_md5}

no_backslash :
    trim_backslash (windows_source answers.resolved (codes "//server/share"))
    ≡ windows_source answers.resolved (codes "//server/share")
unfolding trim_backslash windows_source csi_driver_smb.Text.replace_byte
    csi_driver_smb.Text.fields_func csi_driver_smb.Text.text_eq
no_backslash = refl

smb_mount-upgrade_example :
    (CsiProxy.smb_mount no_md5 false answers
        (codes "//server/share")
        (codes "c:\\t")
        (codes "u" ∷ [])
        (codes "p" ∷ [])
        (codes "v")
        (upgraded [] [])
      ≡ (
        (smb_mount answers
            (codes "//server/share")
            (codes "c:\\t")
            (codes "u" ∷ [])
            (codes "p" ∷ [])
            []).0,
        upgraded []
            (smb_mount answers
              (codes "//server/share")
              (codes "c:\\t")
              (codes "u" ∷ [])
              (codes "p" ∷ [])
              []).1,
      ))
    × (CsiProxy.smb_unmount no_md5 false answers (codes "c:\\t") (codes "v") (upgraded [] []) ≡ (
      (smb_unmount answers (codes "c:\\t") []).0,
      upgraded [] (smb_unmount answers (codes "c:\\t") []).1,
    ))
smb_mount-upgrade_example =
    smb_mount-upgrade no_md5 answers (codes "//server/share") (codes "c:\\t") (codes "v")
      (codes "u" ∷ []) (codes "p" ∷ []) [] [] no_backslash
