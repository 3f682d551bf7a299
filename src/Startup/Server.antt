-- ===== src/Startup/Server.antt =====
-- The address that the gRPC server listens on: serve of pkg/csi-common/server.go.
use csi_driver_smb.Base.{Bool, Option, none, some, ◌∷◌, if◌then◌else◌}
use csi_driver_smb.Text.{Text, codes, text_eq}
use csi_driver_smb.FilePath.{slash}
use csi_driver_smb.Result.{Result, ok, err, ◌>>=◌, ◌>>◌, or_err, require}
use csi_driver_smb.World.{OsError, not_exist, exist, corrupted, end_of_file, other}
use csi_driver_smb.CsiCommon.{parse_endpoint}
use csi_driver_smb.Startup.Cluster.{Host}
use csi_driver_smb.Startup.{Fatal}

-- a socket that is not there need not be removed
removed : Option OsError → Result Fatal (Unit {0})
removed none = ok tt
removed (some not_exist) = ok tt
removed (some exist) = err Fatal.busy_socket
removed (some corrupted) = err Fatal.busy_socket
removed (some end_of_file) = err Fatal.busy_socket
removed (some other) = err Fatal.busy_socket

-- the path of a socket; on Linux it is taken from the root
unfoldable pub socket_path : Bool → Text → Text
socket_path windows address = if windows then address else slash ∷ address

module _ (h : Host) where
  unfoldable pub prepare_address : Text → Text → Result Fatal Text
  unfolding removed socket_path
  prepare_address proto address =
      if text_eq proto (codes "unix")
      then (do
        removed (h.remove (socket_path h.windows address))
        ok (socket_path h.windows address))
      else ok address

  -- the network and the address of the listener
  unfoldable pub serve : Text → Result Fatal (Text × Text)
  unfolding prepare_address
  serve endpoint = do
    parsed ← or_err (parse_endpoint endpoint) Fatal.bad_endpoint
    address ← prepare_address parsed.0 parsed.1
    require (h.listens parsed.0 address) Fatal.no_listener
    ok (parsed.0, address)
