-- ===== src/Startup/Flagged.antt =====
-- What the flags do to the driver that is started.
use csi_driver_smb.Base.{
  ℕ, ◌==◌, ◌&&◌, ◌↔◌, arith, ◌≡◌, sym, ◌∙◌, ap, subst, true, ◌||◌, Bool-cases, inl, inr, [],
  if◌then◌else◌,
}
use csi_driver_smb.Text.{Text, equal_fold}
use csi_driver_smb.Names.{retain, archive}
use csi_driver_smb.Result.{ok}
use csi_driver_smb.Result.Laws.{ok-injective, Result-cases}
use csi_driver_smb.Volume.Defs.{SmbVolume}
use csi_driver_smb.Volume.Id.{kept_by_id}
use csi_driver_smb.Controller.Delete.{on_delete_policy}
use csi_driver_smb.Controller.Delete.Policy.{on_delete_policy-kept_by_id}
use csi_driver_smb.CsiCommon.{
  add_controller_service_capabilities, add_node_service_capabilities,
  add_volume_capability_access_modes, validate_node_service_request,
}
use csi_driver_smb.Startup.Cluster.{Host}
use csi_driver_smb.Startup.{
  DriverOptions, Flags, driver_options, Driver, driver_of_options, ttl_of_minutes, new_driver,
}
use csi_driver_smb.Startup.Process.{
  controller_capabilities, access_modes, node_capabilities, Running, new_safe_mounter, run, handle,
}
use csi_driver_smb.Startup.Server.{serve}

-- the driver that Run is left with
abbrev with_capabilities : Driver → Driver
with_capabilities d = record d {
  csi =
      add_node_service_capabilities
        (add_volume_capability_access_modes
          (add_controller_service_capabilities d.csi controller_capabilities) access_modes).1
        (node_capabilities d.enable_get_volume_stats);
}

module _ (h : Host) (v : Text) where
  new_driver-driver_of_options :
      (o : DriverOptions) (d : Driver) → new_driver h v o ≡ ok d → driver_of_options h v o ≡ d
  unfolding new_driver
  new_driver-driver_of_options o d e =
      elim (Bool-cases (h.timed_cache (driver_of_options h v o).vol_stats_cache_ttl)) [
        | inl c ↦ elim (Bool-cases (h.timed_cache (ttl_of_minutes 1))) [
          | inl c' ↦ ok-injective (rw (c, c') at e)
          | inr c' ↦ (let e' = rw (c, c') at e in cc)
        ]
        | inr c ↦ (let e' = rw c at e in cc)
      ]

  run-with_capabilities :
      (d : Driver) (endpoint : Text) (r : Running)
      → run h d endpoint ≡ ok r
      → with_capabilities d ≡ r.driver
  unfolding run serve
  run-with_capabilities d endpoint r e = elim (Bool-cases h.version_yaml) [
    | inr y ↦ (let e' = rw y at e in cc)
    | inl y ↦
        elim (Result-cases
          (new_safe_mounter h d.enable_windows_host_process d.remove_smb_mapping_during_unmount)) [
            | inr (_, m) ↦ (let e' = rw (y, m) at e in cc)
            | inl (_, m) ↦ elim (Result-cases (serve h endpoint)) [
              | inr (_, s) ↦ (let e' = rw (y, m, s) at e in cc)
              | inl (_, s) ↦ ap (λ x. x.driver) (ok-injective (rw (y, m, s) at e))
            ]
          ]
  ]

  handle-with_capabilities :
      (f : Flags) (r : Running)
      → handle h v f ≡ ok r
      → with_capabilities (driver_of_options h v (driver_options f)) ≡ r.driver
  unfolding handle
  handle-with_capabilities f r e = elim (Result-cases (new_driver h v (driver_options f))) [
    | inr (_, n) ↦ (let e' = rw n at e in cc)
    | inl (d, n) ↦
        rw (new_driver-driver_of_options (driver_options f) d n)
          (run-with_capabilities d f.endpoint r (rw n at e))
  ]

  -- The flags default-ondelete-policy and kubeconfig do nothing: with any other values of them the
  -- same driver is started. It follows the policy of a volume's id, and where the id has none, the
  -- volume is deleted.
  pub handle-ineffective :
      (f : Flags) (policy kubeconfig : Text) (r : Running)
      → handle h v f ≡ ok r
      → (handle h v (record f { default_on_delete_policy = policy; kubeconfig = kubeconfig })
          ≡ ok r)
        × ((vol : SmbVolume)
            → on_delete_policy r.driver.config.default_on_delete_policy (kept_by_id vol) ≡ (
                if equal_fold vol.on_delete retain || equal_fold vol.on_delete archive
                then vol.on_delete
                else []))
  unfolding handle driver_options new_driver driver_of_options
  handle-ineffective f policy kubeconfig r e = (
    e,
    λ vol.
        ap (λ d. on_delete_policy d.config.default_on_delete_policy (kept_by_id vol))
          (sym (handle-with_capabilities f r e))
        ∙ on_delete_policy-kept_by_id [] vol,
  )

  -- After the start a node request is allowed exactly when its capability is unknown, that of staging,
  -- of several writers on a node or of mount groups, or that of statistics and these are enabled.
  handle-validate_node_service_request :
      (f : Flags) (r : Running) (c : ℕ)
      → handle h v f ≡ ok r
      → (validate_node_service_request r.driver.csi c ≡ ok tt)
        ↔ ((c == 0 || c == 1 || c == 5 || c == 6 || f.enable_get_volume_stats && c == 2) ≡ true)
  unfolding validate_node_service_request add_node_service_capabilities driver_of_options
      driver_options
  handle-validate_node_service_request f r c e =
      subst
        (λ d.
          (validate_node_service_request d.csi c ≡ ok tt)
          ↔ ((c == 0 || c == 1 || c == 5 || c == 6 || f.enable_get_volume_stats && c == 2) ≡ true))
        (handle-with_capabilities f r e)
        (elim (Bool-cases f.enable_get_volume_stats) [
          | inl s ↦ rw s (ground arith, ground arith)
          | inr s ↦ rw s (ground arith, ground arith)
        ])
