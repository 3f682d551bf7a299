-- ===== src/Examples/Mounts.antt =====
-- Mount points on concrete inputs.
use csi_driver_smb.Base.{false}
use csi_driver_smb.Text.{codes}
use csi_driver_smb.World.{done, World}
use csi_driver_smb.Node.Mounter.{ensure_mount_point}
use csi_driver_smb.Node.Mounter.Shown.{Shown}
use csi_driver_smb.Driver.{new_driver}
use csi_driver_smb.Examples.World.{quiet}

-- a target that is no mount point yet
abbrev ensured : World
ensured = (ensure_mount_point (quiet done) false (codes "/mnt") new_driver).1
