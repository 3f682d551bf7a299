-- ===== src/CsiProxy.antt =====
-- The mounter over csi-proxy: pkg/mounter/safe_mounter_windows.go. What csi-proxy, the resolver and
-- the file system answer to one call of the mounter is its argument `Answers`; the state is the
-- references of refcounter_windows.go and what csi-proxy was asked for, the latest first. The lock of
-- a mapping makes each function one step.
pub mod Removal
pub mod Spared
pub mod Mounted
use csi_driver_smb.Base.{
  ℕ, Bool, true, false, not, ◌&&◌, ◌||◌, Option, none, some, List, [], ◌∷◌, ◌++◌, drop, length,
  is_empty, if◌then◌else◌, ◌==◌,
}
use csi_driver_smb.Base.Int.{ℤ, pos, negsuc}
use csi_driver_smb.Text.{Text, codes, text_eq, has_prefix, fields_func, replace_byte}
use csi_driver_smb.FilePath.{slash, dir}
use csi_driver_smb.Result.{Result, ok, err, Reason}
use csi_driver_smb.Exec.{Exec, pure, raise, lift, check, ◌>>=◌, ◌>>◌}
use csi_driver_smb.World.{OsError, not_exist, other}
use csi_driver_smb.FilePath.OnWindows.{backslash, dir_on_drive}
use csi_driver_smb.Refcount.{
  References, Faults, get_root_mapping_path, trim_backslash, get_volume_id_references_count,
  increment, decrement,
}

pub data ProxyCall : Type 0 where
  path_exists mkdir rmdir is_symlink : Text → ProxyCall
  create_symlink : Text → Text → ProxyCall
  -- the local path, the remote path, the user and the password
  new_smb_global_mapping : Text → Text → Text → Text → ProxyCall
  remove_smb_global_mapping : Text → ProxyCall

pub record Answers : Type 0 where
  pub exists : Result OsError Bool
  pub mkdir : Option OsError
  -- the address of a host, if it is resolved
  pub resolved : Option Text
  pub new_mapping : Option OsError
  pub remove_mapping : Option OsError
  pub symlink : Option OsError
  pub is_symlink : Result OsError Bool
  pub rmdir : Option OsError
  pub read_link : Result OsError Text
  -- how the calls for changing a reference and those for counting come out
  pub on_change : Faults
  pub on_count : Faults

pub record Proxy : Type 0 where
  pub references : References
  pub calls : List ProxyCall

abbrev pub Mounter : Type 0 → Type 0
Mounter A = Exec Proxy OsError A

unfoldable pub normalize_windows_path : Text → Text
normalize_windows_path path =
    let normalized = replace_byte slash backslash path in
    if has_prefix normalized (backslash ∷ []) then codes "c:" ++ normalized else normalized

-- strings.HasSuffix
unfoldable pub has_suffix : Text → Text → Bool
has_suffix [] p = text_eq [] p
has_suffix (c ∷ s) p = text_eq (c ∷ s) p || has_suffix s p

-- strings.Replace(s, old, new, 1) for an `old` that is not empty
unfoldable pub replace_first : Text → Text → Text → Text
replace_first old new [] = []
replace_first old new (c ∷ s) =
    let rest = replace_first old new s in
    if has_prefix (c ∷ s) old then new ++ drop (length old) (c ∷ s) else c ∷ rest

-- the function Split
abbrev pub splits : ℕ → Bool
splits r = r == b' ' || r == slash

-- the address in place of the host, if the host is one of the cluster and resolved
resolve_host : Option Text → Text → List Text → Text
unfolding has_suffix replace_first
resolve_host ip source [] = source
resolve_host none source (domain_name ∷ _) = source
resolve_host (some ip) source (domain_name ∷ _) =
    if has_suffix domain_name (codes "svc.cluster.local")
    then replace_first domain_name ip source
    else source

-- the source with the host resolved, as Windows writes it
unfoldable pub windows_source : Option Text → Text → Text
unfolding resolve_host
windows_source ip source =
    replace_byte slash backslash (resolve_host ip source (fields_func source splits))

unfoldable pub remote_source : Option Text → Text → Text
unfolding windows_source
remote_source ip source = trim_backslash (windows_source ip source)

unfoldable pub first_option : List Text → Text
first_option [] = []
first_option (o ∷ _) = o

unfoldable pub ask : ProxyCall → Option OsError → Mounter (Unit {0})
ask c none p = (ok tt, record p { calls = c ∷ p.calls })
ask c (some e) p = (err e, record p { calls = c ∷ p.calls })

unfoldable pub ask_flag : ProxyCall → Result OsError Bool → Mounter Bool
ask_flag c r p = (r, record p { calls = c ∷ p.calls })

on_references : Exec References OsError (Unit {0}) → Mounter (Unit {0})
on_references m p = let (r, refs) = m p.references in (r, record p { references = refs })

unfoldable pub mapping_or_error : Text → Result OsError Text
mapping_or_error path = elim (get_root_mapping_path path) [ ok m ↦ ok m | err _ ↦ err other ]

pub is_zero : ℤ → Bool
is_zero (pos n) = n == 0
is_zero (negsuc n) = false

unfoldable pub exists_path : Answers → Text → Mounter Bool
unfolding ask_flag
exists_path a path = ask_flag (ProxyCall.path_exists (normalize_windows_path path)) a.exists

unfoldable pub make_dir : Answers → Text → Mounter (Unit {0})
unfolding ask
make_dir a path = ask (ProxyCall.mkdir (normalize_windows_path path)) a.mkdir

unfoldable pub remove_dir : Answers → Text → Mounter (Unit {0})
unfolding ask
remove_dir a path = ask (ProxyCall.rmdir (normalize_windows_path path)) a.rmdir

-- IsLikelyNotMountPoint: for a missing path the error is ErrNotExist.
unfoldable pub is_likely_not_mount_point : Answers → Text → Mounter Bool
unfolding exists_path ask_flag
is_likely_not_mount_point a path = do
  found ← exists_path a path
  check found not_exist
  linked ← ask_flag (ProxyCall.is_symlink (normalize_windows_path path)) a.is_symlink
  pure (not linked)

unfoldable pub is_mount_point : Answers → Text → Mounter Bool
unfolding is_likely_not_mount_point
is_mount_point a file = do not_mounted ← is_likely_not_mount_point a file; pure (not not_mounted)

-- Mount makes a link.
unfoldable pub link : Answers → Text → Text → Mounter (Unit {0})
unfolding ask
link a source target =
    ask (create_symlink (normalize_windows_path source) (normalize_windows_path target)) a.symlink

-- the flag is RemoveSMBMappingDuringUnmount
module _ (md5 : Text → Text) (remove_smb_mapping : Bool) (a : Answers) where
  unfoldable pub add_reference : Text → Text → Mounter (Unit {0})
  unfolding on_references
  add_reference source volume_id =
      if remove_smb_mapping
      then (do
        mapping_path ← lift (mapping_or_error source)
        on_references (increment md5 a.on_change mapping_path source volume_id))
      else pure tt

  unfoldable pub smb_mount : Text → Text → List Text → List Text → Text → Mounter (Unit {0})
  unfolding add_reference first_option exists_path make_dir
  smb_mount source target mount_options sensitive_mount_options volume_id = do
    check (not (is_empty mount_options || is_empty sensitive_mount_options)) other
    let parent_dir = dir_on_drive target
    parent_exists ← exists_path a parent_dir
    if parent_exists then pure tt else make_dir a parent_dir
    let remote = remote_source a.resolved source
    if remove_smb_mapping then (do lift (mapping_or_error remote); pure tt) else pure tt
    ask
        (new_smb_global_mapping (normalize_windows_path target) remote (first_option mount_options)
          (first_option sensitive_mount_options))
        a.new_mapping
    add_reference remote volume_id

  -- a mapping without references is removed
  unfoldable pub remove_unused : Text → Text → Mounter (Unit {0})
  unfolding is_zero ask
  remove_unused remote_path mapping_path p =
      if is_zero (get_volume_id_references_count a.on_count mapping_path p.references)
      then ask (remove_smb_global_mapping remote_path) a.remove_mapping p
      else (ok tt, p)

  unfoldable pub drop_reference : Text → Text → Mounter (Unit {0})
  unfolding on_references remove_unused
  drop_reference remote_path volume_id =
      if remove_smb_mapping
      then (do
        mapping_path ← lift (mapping_or_error remote_path)
        on_references (decrement md5 a.on_change mapping_path volume_id)
        remove_unused remote_path mapping_path)
      else pure tt

  -- an error of os.Readlink is logged only
  unfoldable pub drop_linked : Result OsError Text → Text → Mounter (Unit {0})
  drop_linked (err _) volume_id = pure tt
  drop_linked (ok remote_path) volume_id = drop_reference (trim_backslash remote_path) volume_id

  unfoldable pub smb_unmount : Text → Text → Mounter (Unit {0})
  unfolding drop_linked remove_dir
  smb_unmount target volume_id = do drop_linked a.read_link volume_id; remove_dir a target
