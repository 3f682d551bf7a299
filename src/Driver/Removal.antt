-- ===== src/Driver/Removal.antt =====
-- What a driver process removes by os.RemoveAll and moves by os.Rename.
use csi_driver_smb.Base.{◌≡◌, ◌⊎◌, List, All}
use csi_driver_smb.Text.{Text}
use csi_driver_smb.World.{Call, remove_all, rename, World}
use csi_driver_smb.Kerberos.{kerberos_file_path}
use csi_driver_smb.Config.{Config}
use csi_driver_smb.Volume.Paths.{Beneath}

-- the path of a link in the directory of the Kerberos caches
pub record IsCacheLink (cfg : Config) (path : Text) : Type 0 where
  pub name : Text
  pub spelled : path ≡ kerberos_file_path cfg.krb5_cache_directory name

-- The path of os.RemoveAll lies beneath the working directory, or is a link to a Kerberos cache;
-- os.Rename stays beneath the working directory, or makes such a link. Other calls are free.
abbrev pub Confined : Config → Call → Type 0
Confined cfg (remove_all path) = Beneath cfg.working_mount_dir path ⊎ IsCacheLink cfg path
Confined cfg (rename from to) =
    (Beneath cfg.working_mount_dir from × Beneath cfg.working_mount_dir to) ⊎ IsCacheLink cfg to
Confined cfg _ = Unit

abbrev Clean : Config → List Text → World → Type 0
Clean cfg held w = All (Confined cfg) w.trace
