-- ===== src/Refcount.antt =====
-- The references of volumes to SMB mappings on Windows: pkg/mounter/refcounter_windows.go. They are
-- files below `base_path`, kept as a list of these. MD5 in hexadecimal is the argument `md5`. How the
-- calls of a function on the file system come out is its argument `Faults`.
pub mod Mapping
pub mod Counts
pub mod Made
use csi_driver_smb.Base.{
  ℕ, Bool, true, false, ◌&&◌, ◌||◌, Option, none, some, List, [], ◌∷◌, ◌++◌, any, drop, length,
  if◌then◌else◌, ◌==◌,
}
use csi_driver_smb.Base.Int.{ℤ, pos, negsuc}
use csi_driver_smb.Text.{
  Text, codes, text_eq, split, drop_empty, to_lower, trim_prefix, replace_byte,
}
use csi_driver_smb.FilePath.{slash, join_path}
use csi_driver_smb.Result.{Result, ok, err, Reason, invalid_source}
use csi_driver_smb.Exec.{Exec, pure, raise, modify, ◌>>=◌, ◌>>◌}
use csi_driver_smb.World.{OsError, not_exist}
use csi_driver_smb.FilePath.OnWindows.{backslash}

abbrev pub base_path : Text
base_path = codes "c:\\csi\\smbmounts"

-- the host and the share
abbrev pub unc_root : Text → Text → Text
unc_root host share = codes "\\\\" ++ host ++ backslash ∷ share

root_of : List Text → Result Reason Text
root_of [] = err invalid_source
root_of (_ ∷ []) = err invalid_source
root_of (host ∷ share ∷ _) = ok (to_lower (unc_root host share))

unfoldable pub get_root_mapping_path : Text → Result Reason Text
unfolding root_of
get_root_mapping_path path = root_of (drop_empty (split path backslash))

-- strings.TrimSuffix(s, "\\")
unfoldable pub trim_backslash : Text → Text
trim_backslash [] = []
trim_backslash (c ∷ []) = if c == backslash then [] else c ∷ []
trim_backslash (c ∷ d ∷ s) = c ∷ trim_backslash (d ∷ s)

-- filepath.Join on Windows, at a path that begins with the drive c
unfoldable pub join_on_c : Text → Text → Text
unfolding replace_byte
join_on_c base path =
    codes "c:"
    ++ replace_byte slash backslash
        (join_path (replace_byte backslash slash (drop 2 base)) (replace_byte backslash slash path))

unfoldable pub reference_dir : Text → Text
unfolding join_on_c
reference_dir mapping_path = join_on_c base_path (trim_prefix mapping_path (codes "\\\\"))

-- a file, its directory apart from its name
pub record Reference : Type 0 where
  pub dir : Text
  pub file : Text
  pub body : Text

abbrev pub References : Type 0
References = List Reference

abbrev pub is_at : Text → Text → Reference → Bool
is_at d f r = text_eq r.dir d && text_eq r.file f

unfoldable pub has_reference : Text → Text → References → Bool
has_reference d f refs = any (is_at d f) refs

unfoldable pub without : Text → Text → References → References
without d f [] = []
without d f (r ∷ refs) = let rest = without d f refs in if is_at d f r then rest else r ∷ rest

unfoldable pub files_in : Text → References → References
files_in d [] = []
files_in d (r ∷ refs) = let rest = files_in d refs in if text_eq r.dir d then r ∷ rest else rest

-- os.Create or a write, on a file that may be there
unfoldable pub put : Text → Text → Text → References → References
unfolding without
put d f body refs = record { dir = d; file = f; body = body } ∷ without d f refs

pub record Faults : Type 0 where
  pub mkdir_all : Option OsError
  pub create : Option OsError
  pub write_string : Option OsError
  pub remove : Option OsError
  pub read_dir : Option OsError

returned : Option OsError → Exec References OsError (Unit {0})
returned none = pure tt
returned (some e) = raise e

-- os.Remove
remove_file : Option OsError → Text → Text → Exec References OsError (Unit {0})
unfolding has_reference without
remove_file none d f refs =
    if has_reference d f refs then (ok tt, without d f refs) else (err not_exist, refs)
remove_file (some e) d f refs = (err e, refs)

count_of : Option OsError → Option OsError → ℕ → ℤ
count_of none none n = pos n
count_of none (some e) n = negsuc 0
count_of (some e) o n = negsuc 0

unfoldable pub get_volume_id_references_count : Faults → Text → References → ℤ
unfolding count_of files_in
get_volume_id_references_count x mapping_path refs =
    count_of x.mkdir_all x.read_dir (length (files_in (reference_dir mapping_path) refs))

module _ (md5 : Text → Text) where
  unfoldable pub get_md5 : Text → Text
  get_md5 path = md5 (to_lower path)

  unfoldable pub increment : Faults → Text → Text → Text → Exec References OsError (Unit {0})
  unfolding returned put get_md5
  increment x mapping_path remote_path volume_id = do
    let path = reference_dir mapping_path
    returned x.mkdir_all
    returned x.create
    modify (put path (get_md5 volume_id) [])
    returned x.write_string
    modify (put path (get_md5 volume_id) (trim_backslash remote_path))

  unfoldable pub decrement : Faults → Text → Text → Exec References OsError (Unit {0})
  unfolding returned remove_file get_md5
  decrement x mapping_path volume_id = do
    returned x.mkdir_all
    remove_file x.remove (reference_dir mapping_path) (get_md5 volume_id)
