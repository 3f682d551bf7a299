-- ===== src/Identity.antt =====
-- pkg/smb/identityserver.go.
use csi_driver_smb.Base.{Bool, true, List, [], ◌∷◌, is_empty, if◌then◌else◌}
use csi_driver_smb.Text.{Text}
use csi_driver_smb.Result.{
  Result, ok, err, Status, status, unavailable, driver_name_missing, driver_version_missing,
}
use csi_driver_smb.CsiCommon.{CsiDriver}

pub record PluginInfo : Type 0 where
  pub name : Text
  pub vendor_version : Text

unfoldable pub get_plugin_info : CsiDriver → Result Status PluginInfo
get_plugin_info d =
    if is_empty d.name
    then err (status unavailable driver_name_missing)
    else if is_empty d.version
    then err (status unavailable driver_version_missing)
    else ok (record { name = d.name; vendor_version = d.version })

-- the driver is always ready
unfoldable pub probe : CsiDriver → Bool
probe d = true

pub data PluginCapability : Type 0 where
  controller_service : PluginCapability

unfoldable pub get_plugin_capabilities : CsiDriver → List PluginCapability
get_plugin_capabilities d = controller_service ∷ []
