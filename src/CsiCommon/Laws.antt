-- ===== src/CsiCommon/Laws.antt =====
-- Endpoints.
use csi_driver_smb.Base.{◌≡◌, refl, false, [], ◌∷◌, ◌++◌, is_empty}
use csi_driver_smb.Text.{Text, codes, has_prefix, to_lower}
use csi_driver_smb.Result.{ok}
use csi_driver_smb.CsiCommon.{split_scheme, address_of, parse_endpoint}

-- An endpoint that is spelled with the scheme unix or tcp and an address that is not empty is parsed to
-- the two.
pub parse_endpoint-append :
    (address : Text)
    → is_empty address ≡ false
    → (parse_endpoint (codes "unix://" ++ address) ≡ ok (codes "unix", address))
      × (parse_endpoint (codes "tcp://" ++ address) ≡ ok (codes "tcp", address))
unfolding parse_endpoint split_scheme address_of has_prefix to_lower
parse_endpoint-append [] h = cc
parse_endpoint-append (c ∷ address) h = (refl, refl)
