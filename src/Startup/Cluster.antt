-- ===== src/Startup/Cluster.antt =====
-- getKubeConfig and inClusterConfig of pkg/smb/smb.go.
use csi_driver_smb.Base.{
  Bool, true, false, not, ◌||◌, Option, [], ◌∷◌, ◌++◌, is_empty, if◌then◌else◌, any, ◌==◌,
}
use csi_driver_smb.Base.Int.{ℤ}
use csi_driver_smb.Text.{Text, codes}
use csi_driver_smb.FilePath.{join_path}
use csi_driver_smb.FilePath.OnWindows.{join_on_drive}
use csi_driver_smb.Result.{Result, ok, err, ◌>>=◌, ◌>>◌, require}
use csi_driver_smb.World.{OsError, other}

-- What the driver asks its host for while it starts.
pub record Host : Type 0 where
  -- runtime.GOOS == "windows"
  pub windows : Bool
  -- os.Getenv, os.ReadFile, os.Remove, net.Listen
  pub getenv : Text → Text
  pub read_file : Text → Result OsError Text
  pub remove : Text → Option OsError
  pub listens : Text → Text → Bool
  -- k8s.io/client-go: whether a certificate pool can be made of a file, and whether a file holds a
  -- configuration
  pub cert_pool : Text → Bool
  pub build_config : Text → Bool
  -- azcache.NewTimedCache at a time to live
  pub timed_cache : ℤ → Bool
  -- whether the version is printed as YAML
  pub version_yaml : Bool
  -- whether the clients of csi-proxy, for files and for SMB, can be made: v1 and v1beta
  pub fs_client : Bool
  pub smb_client : Bool
  pub fs_client_beta : Bool
  pub smb_client_beta : Bool

-- rest.Config
pub data RestConfig : Type 0 where
  -- the one that a file holds
  of_file : Text → RestConfig
  -- host, certificates, token, and the file of the token
  in_cluster : Text → Text → Text → Text → RestConfig

abbrev token_file : Text
token_file = codes "/var/run/secrets/kubernetes.io/serviceaccount/token"

abbrev root_ca_file : Text
root_ca_file = codes "/var/run/secrets/kubernetes.io/serviceaccount/ca.crt"

-- net.JoinHostPort
unfoldable pub join_host_port : Text → Text → Text
join_host_port host port =
    if any (λ c. c == b':') host then b'[' ∷ host ++ b']' ∷ b':' ∷ port else host ++ b':' ∷ port

abbrev pub is_found {ℓ κ} : {E : Type ℓ} {A : Type κ} → Result E A → Bool
is_found (ok _) = true
is_found (err _) = false

module _ (h : Host) where
  -- a file of the service account; under a host process it is below the sandbox of the container
  sandboxed : Bool → Text → Result OsError Text
  sandboxed false file = ok file
  sandboxed true file =
      let sandbox = h.getenv (codes "CONTAINER_SANDBOX_MOUNT_POINT") in
      if is_empty sandbox
      then err other
      else ok (if h.windows then join_on_drive sandbox file else join_path sandbox file)

  unfoldable pub in_cluster_config : Bool → Result OsError RestConfig
  unfolding sandboxed join_host_port
  in_cluster_config enable_windows_host_process = do
    token_path ← sandboxed enable_windows_host_process token_file
    root_ca_path ← sandboxed enable_windows_host_process root_ca_file
    let host = h.getenv (codes "KUBERNETES_SERVICE_HOST")
    let port = h.getenv (codes "KUBERNETES_SERVICE_PORT")
    require (not (is_empty host || is_empty port)) other
    token ← h.read_file token_path
    ok (
        in_cluster (codes "https://" ++ join_host_port host port)
          (if h.cert_pool root_ca_path then root_ca_path else []) token token_path)

  unfoldable pub get_kube_config : Text → Bool → Result OsError RestConfig
  unfolding in_cluster_config
  get_kube_config kubeconfig enable_windows_host_process =
      if is_empty kubeconfig
      then in_cluster_config enable_windows_host_process
      else if h.build_config kubeconfig
      then ok (of_file kubeconfig)
      else err other
