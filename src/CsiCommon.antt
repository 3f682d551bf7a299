-- ===== src/CsiCommon.antt =====
-- pkg/csi-common: driver.go and utils.go. The enumerations of the CSI specification are their numbers.
pub mod Laws
pub mod Logging
use csi_driver_smb.Base.{
  ℕ, Bool, true, false, ◌||◌, Option, none, some, List, [], ◌∷◌, any, drop, is_empty, if◌then◌else◌,
  ◌==◌,
}
use csi_driver_smb.Text.{Text, codes, text_eq, has_prefix, to_lower}
use csi_driver_smb.Result.{
  Result, ok, err, Reason, Status, status, invalid_argument, not_supported, invalid_endpoint,
}

pub record CsiDriver : Type 0 where
  pub name : Text
  pub node_id : Text
  pub version : Text
  pub cap : List ℕ
  pub vc : List ℕ
  pub ns_cap : List ℕ

-- `none` is the nil pointer; a missing version is logged only
unfoldable pub new_csi_driver : Text → Text → Text → Option CsiDriver
new_csi_driver name version node_id =
    if is_empty name
    then none
    else if is_empty node_id
    then none
    else some (record {
      name = name;
      node_id = node_id;
      version = version;
      cap = [];
      vc = [];
      ns_cap = [];
    })

-- RPC_UNKNOWN
abbrev unknown_rpc : ℕ
unknown_rpc = 0

is_enabled : ℕ → List ℕ → Result Status (Unit {0})
is_enabled c enabled =
    if c == unknown_rpc
    then ok tt
    else if any (λ e. c == e) enabled
    then ok tt
    else err (status invalid_argument not_supported)

unfoldable pub validate_controller_service_request : CsiDriver → ℕ → Result Status (Unit {0})
unfolding is_enabled
validate_controller_service_request d c = is_enabled c d.cap

unfoldable pub validate_node_service_request : CsiDriver → ℕ → Result Status (Unit {0})
unfolding is_enabled
validate_node_service_request d c = is_enabled c d.ns_cap

unfoldable pub add_controller_service_capabilities : CsiDriver → List ℕ → CsiDriver
add_controller_service_capabilities d cl = record d { cap = cl }

unfoldable pub add_node_service_capabilities : CsiDriver → List ℕ → CsiDriver
add_node_service_capabilities d nl = record d { ns_cap = nl }

unfoldable pub add_volume_capability_access_modes : CsiDriver → List ℕ → List ℕ × CsiDriver
add_volume_capability_access_modes d vc = (vc, record d { vc = vc })

-- strings.SplitN(s, "://", 2): what stands before the separator, and what stands behind it
unfoldable pub split_scheme : Text → Text × Option Text
unfolding has_prefix
split_scheme [] = ([], none)
split_scheme (c ∷ s) =
    let (before, behind) = split_scheme s in
    if has_prefix (c ∷ s) (codes "://") then ([], some (drop 2 s)) else (c ∷ before, behind)

-- an address that is there and not empty
address_of : Text × Option Text → Result Reason (Text × Text)
address_of (proto, none) = err invalid_endpoint
address_of (proto, some []) = err invalid_endpoint
address_of (proto, some (c ∷ address)) = ok (proto, c ∷ address)

unfoldable pub parse_endpoint : Text → Result Reason (Text × Text)
unfolding split_scheme address_of
parse_endpoint ep =
    if has_prefix (to_lower ep) (codes "unix://") || has_prefix (to_lower ep) (codes "tcp://")
    then address_of (split_scheme ep)
    else err invalid_endpoint

unfoldable pub get_log_level : Text → ℕ
get_log_level method =
    if text_eq method (codes "/csi.v1.Identity/Probe")
      || (text_eq method (codes "/csi.v1.Node/NodeGetCapabilities")
          || text_eq method (codes "/csi.v1.Node/NodeGetVolumeStats"))
    then 6
    else 2
