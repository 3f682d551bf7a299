-- ===== src/Node/Info.antt =====
-- NodeGetCapabilities, NodeGetInfo and NodeExpandVolume of nodeserver.go.
use csi_driver_smb.Base.{ℕ, List}
use csi_driver_smb.Text.{Text}
use csi_driver_smb.Result.{Result, err, Status, status, unimplemented, not_implemented}
use csi_driver_smb.CsiCommon.{CsiDriver}

unfoldable pub node_get_capabilities : CsiDriver → List ℕ
node_get_capabilities d = d.ns_cap

unfoldable pub node_get_info : CsiDriver → Text
node_get_info d = d.node_id

unfoldable pub node_expand_volume : Result Status (Unit {0})
node_expand_volume = err (status unimplemented not_implemented)
