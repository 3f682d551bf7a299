-- ===== src/Startup.antt =====
-- How a driver process starts: cmd/smbplugin/main.go, and NewDriver and DriverOptions of
-- pkg/smb/smb.go. The host that it starts on is the argument `Host`.
pub mod Cluster
pub mod Server
pub mod Metrics
pub mod Process
pub mod Flagged
use csi_driver_smb.Base.{
  ℕ, ◌*◌, Bool, true, false, Option, none, some, [], is_empty, if◌then◌else◌, leb,
}
use csi_driver_smb.Base.Int.{ℤ, pos, negsuc, to_int64}
use csi_driver_smb.Text.{Text, codes}
use csi_driver_smb.Names.{default_krb5_cc_name, default_krb5_cache_directory}
use csi_driver_smb.Result.{Result, ok, err}
use csi_driver_smb.Config.{Config}
use csi_driver_smb.CsiCommon.{CsiDriver}
use csi_driver_smb.Startup.Cluster.{Host, get_kube_config, is_found}

pub record DriverOptions : Type 0 where
  pub node_id : Text
  pub driver_name : Text
  pub enable_get_volume_stats : Bool
  pub remove_smb_mapping_during_unmount : Bool
  pub working_mount_dir : Text
  pub vol_stats_cache_expire_in_minutes : ℤ
  pub krb5_cache_directory : Text
  pub krb5_prefix : Text
  pub default_on_delete_policy : Text
  pub remove_archived_volume_path : Bool
  pub enable_windows_host_process : Bool
  pub kubeconfig : Text

-- the flags of the command
pub record Flags : Type 0 where
  pub endpoint : Text
  pub node_id : Text
  pub driver_name : Text
  pub ver : Bool
  pub metrics_address : Text
  pub kubeconfig : Text
  pub enable_get_volume_stats : Bool
  pub remove_smb_mapping_during_unmount : Bool
  pub working_mount_dir : Text
  pub vol_stats_cache_expire_in_minutes : ℤ
  pub krb5_cache_directory : Text
  pub krb5_prefix : Text
  pub default_on_delete_policy : Text
  pub remove_archived_volume_path : Bool
  pub enable_windows_host_process : Bool

abbrev pub default_driver_name : Text
default_driver_name = codes "smb.csi.k8s.io"

-- the flags of a command line that sets none
abbrev pub default_flags : Flags
default_flags = record {
  endpoint = codes "unix://tmp/csi.sock";
  node_id = [];
  driver_name = default_driver_name;
  ver = false;
  metrics_address = [];
  kubeconfig = [];
  enable_get_volume_stats = true;
  remove_smb_mapping_during_unmount = true;
  working_mount_dir = codes "/tmp";
  vol_stats_cache_expire_in_minutes = pos 10;
  krb5_cache_directory = default_krb5_cache_directory;
  krb5_prefix = default_krb5_cc_name;
  default_on_delete_policy = [];
  remove_archived_volume_path = true;
  enable_windows_host_process = false;
}

-- the options that `handle` makes of the flags
unfoldable pub driver_options : Flags → DriverOptions
driver_options f = record {
  node_id = f.node_id;
  driver_name = f.driver_name;
  enable_get_volume_stats = f.enable_get_volume_stats;
  remove_smb_mapping_during_unmount = f.remove_smb_mapping_during_unmount;
  working_mount_dir = f.working_mount_dir;
  vol_stats_cache_expire_in_minutes = f.vol_stats_cache_expire_in_minutes;
  krb5_cache_directory = f.krb5_cache_directory;
  krb5_prefix = f.krb5_prefix;
  default_on_delete_policy = f.default_on_delete_policy;
  remove_archived_volume_path = f.remove_archived_volume_path;
  enable_windows_host_process = f.enable_windows_host_process;
  -- the field is not set
  kubeconfig = [];
}

-- The fields of Driver that do not change between requests: those of `Config`, those that only Run
-- and the mounter read, and the time to live of the statistics in nanoseconds.
pub record Driver : Type 0 where
  pub csi : CsiDriver
  pub config : Config
  pub enable_get_volume_stats : Bool
  pub remove_smb_mapping_during_unmount : Bool
  pub enable_windows_host_process : Bool
  pub kubeconfig : Text
  pub vol_stats_cache_ttl : ℤ

-- an error that ends the process
pub data Fatal : Type 0 where
  no_cache no_version no_mounter bad_endpoint busy_socket no_listener : Fatal

unfoldable pub or_default : Text → Text → Text
or_default s default = if is_empty s then default else s

-- non-positive minutes are replaced by 10
unfoldable pub cache_minutes : ℤ → ℕ
cache_minutes (pos n) = if leb n 0 then 10 else n
cache_minutes (negsuc n) = 10

-- time.Duration(minutes) * time.Minute, in nanoseconds
unfoldable pub ttl_of_minutes : ℕ → ℤ
ttl_of_minutes n = to_int64 (n * 60_000_000_000)

module _ (h : Host) where
  -- The version is set by the build. `kubeClient` is not nil once a configuration is found, also if
  -- no client can be made of it: it then holds a nil pointer of another type.
  unfoldable pub driver_of_options : Text → DriverOptions → Driver
  unfolding or_default cache_minutes
  driver_of_options version o = record {
    csi = record {
      name = o.driver_name;
      node_id = o.node_id;
      version = version;
      cap = [];
      vc = [];
      ns_cap = [];
    };
    config = record {
      windows = h.windows;
      working_mount_dir = o.working_mount_dir;
      krb5_cache_directory = or_default o.krb5_cache_directory default_krb5_cache_directory;
      krb5_prefix = or_default o.krb5_prefix default_krb5_cc_name;
      -- the field is not set
      default_on_delete_policy = [];
      remove_archived_volume_path = o.remove_archived_volume_path;
      kube_client = is_found (get_kube_config h o.kubeconfig o.enable_windows_host_process);
    };
    enable_get_volume_stats = o.enable_get_volume_stats;
    remove_smb_mapping_during_unmount = o.remove_smb_mapping_during_unmount;
    enable_windows_host_process = o.enable_windows_host_process;
    kubeconfig = o.kubeconfig;
    vol_stats_cache_ttl = ttl_of_minutes (cache_minutes o.vol_stats_cache_expire_in_minutes);
  }

  -- NewDriver: the driver, if both caches can be made
  unfoldable pub new_driver : Text → DriverOptions → Result Fatal Driver
  unfolding driver_of_options
  new_driver version o =
      let d = driver_of_options version o in
      if h.timed_cache d.vol_stats_cache_ttl
      then if h.timed_cache (ttl_of_minutes 1) then ok d else err no_cache
      else err no_cache
