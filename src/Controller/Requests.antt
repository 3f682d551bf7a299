-- ===== src/Controller/Requests.antt =====
-- The requests of controllerserver.go that keep no state.
use csi_driver_smb.Base.{ℕ, not, Option, none, some, List, is_empty}
use csi_driver_smb.Base.Int.{ℤ}
use csi_driver_smb.Text.{Text}
use csi_driver_smb.Result.{
  Result, ok, err, ◌>>◌, require, Status, status, invalid_argument, unimplemented,
  volume_id_missing, capacity_range_missing, not_implemented, Reason,
}
use csi_driver_smb.Node.Context.{VolumeCapability}
use csi_driver_smb.Controller.Mount.{is_valid_volume_capabilities}
use csi_driver_smb.CsiCommon.{CsiDriver}

-- the reason of the refusal is passed on
refused_by : {A : Type 0} → Result Reason A → Result Status A
refused_by (ok a) = ok a
refused_by (err r) = err (status invalid_argument r)

-- the answer confirms the capabilities that it was asked for
unfoldable pub validate_volume_capabilities :
    Text → List VolumeCapability → Result Status (List VolumeCapability)
unfolding refused_by
validate_volume_capabilities volume_id capabilities = do
  require (not (is_empty volume_id)) (status invalid_argument volume_id_missing)
  refused_by (is_valid_volume_capabilities capabilities)
  ok capabilities

range_given : Option ℤ → Result Status ℤ
range_given none = err (status invalid_argument capacity_range_missing)
range_given (some required_bytes) = ok required_bytes

-- the answer is the size that was asked for; nothing is changed on the share
unfoldable pub controller_expand_volume : Text → Option ℤ → Result Status ℤ
unfolding range_given
controller_expand_volume volume_id required_bytes = do
  require (not (is_empty volume_id)) (status invalid_argument volume_id_missing)
  range_given required_bytes

unfoldable pub controller_get_capabilities : CsiDriver → List ℕ
controller_get_capabilities d = d.cap

-- ControllerGetVolume, ControllerPublishVolume, ControllerUnpublishVolume, GetCapacity, ListVolumes,
-- CreateSnapshot, DeleteSnapshot, ListSnapshots
unfoldable pub unimplemented_request : {A : Type 0} → Result Status A
unimplemented_request = err (status unimplemented not_implemented)
