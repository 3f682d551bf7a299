-- ===== src/Startup/Metrics.antt =====
-- The metrics endpoint of cmd/smbplugin/main.go.
use csi_driver_smb.Base.{Bool, true, false, Option, none, some, is_empty, if◌then◌else◌}
use csi_driver_smb.Text.{Text, codes, contains}
use csi_driver_smb.Startup.Cluster.{Host}

-- an error of a connection that was closed is none
unfoldable pub trap_closed_conn_err : Option Text → Option Text
trap_closed_conn_err none = none
trap_closed_conn_err (some message) =
    if contains message (codes "use of closed network connection") then none else some message

-- whether the goroutine that serves the metrics ends the process, once http.Serve returns
unfoldable pub is_serve_fatal : Option Text → Bool
unfolding trap_closed_conn_err
is_serve_fatal e = elim (trap_closed_conn_err e) [ none ↦ false | some _ ↦ true ]

module _ (h : Host) where
  -- The address at which the metrics are served, if at all: an error of the listener is logged only.
  unfoldable pub export_metrics : Text → Option Text
  export_metrics metrics_address =
      if is_empty metrics_address
      then none
      else if h.listens (codes "tcp") metrics_address
      then some metrics_address
      else none
