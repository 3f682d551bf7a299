-- ===== src/Volume/Defs.antt =====
-- smbVolume, the volume id and the internal paths of controllerserver.go; validatePath,
-- validateOnDeleteValue of smb.go.
use csi_driver_smb.Base.{
  ℕ, Bool, ◌||◌, Option, none, some, List, [], ◌∷◌, ◌++◌, if◌then◌else◌, ◌==◌, any,
}
use csi_driver_smb.Base.Int.{ℤ, pos}
use csi_driver_smb.Result.{
  Reason, Result, ok, err, ◌>>◌, or_err, directory_traversal, invalid_on_delete, invalid_sub_dir,
  invalid_uuid, could_not_split,
}
use csi_driver_smb.Text.{
  Text, codes, text_eq, has_prefix, split, join, fields_func, trim, equal_fold,
}
use csi_driver_smb.Names.{retain, archive, supported_on_delete_values}
use csi_driver_smb.FilePath.{slash, dot_dot, join_path}

pub record SmbVolume : Type 0 where
  pub id : Text
  pub source : Text
  pub sub_dir : Text
  pub size : ℤ
  pub uuid : Text
  pub on_delete : Text

abbrev pub separator : ℕ
separator = b'#'

abbrev pub is_path_separator : ℕ → Bool
is_path_separator r = r == slash || r == b'\\'

unfoldable pub validate_path : Text → Result Reason (Unit {0})
validate_path path =
    if any (λ segment. text_eq segment dot_dot) (fields_func path is_path_separator)
    then err directory_traversal
    else ok tt

unfoldable pub validate_on_delete_value : Text → Result Reason (Unit {0})
validate_on_delete_value on_delete =
    if any (λ v. equal_fold v on_delete) supported_on_delete_values
    then ok tt
    else err invalid_on_delete

-- the fourth element of an id
unfoldable pub on_delete_element : Text → Text
on_delete_element on_delete =
    if equal_fold on_delete retain || equal_fold on_delete archive then on_delete else []

unfoldable pub volume_id_from_smb_vol : SmbVolume → Text
unfolding on_delete_element
volume_id_from_smb_vol vol =
    join
      (trim vol.source slash
        ∷ trim vol.sub_dir slash
        ∷ vol.uuid
        ∷ on_delete_element vol.on_delete
        ∷ [])
      separator

-- A source read from an id begins with two slashes.
unfoldable pub unc_source : Text → Text
unc_source s = if has_prefix s (codes "//") then s else codes "//" ++ s

-- What an id's segments stand for: the tests on their number are the patterns.
unfoldable pub volume_from_segments : Text → List Text → Result Reason SmbVolume
unfolding unc_source
volume_from_segments id [] = err could_not_split
volume_from_segments id (_ ∷ []) = err could_not_split
volume_from_segments id (source ∷ sub_dir ∷ []) = do
  or_err (validate_path sub_dir) invalid_sub_dir
  ok (record {
    id = id;
    source = unc_source source;
    sub_dir = sub_dir;
    size = pos 0;
    uuid = [];
    on_delete = [];
  })
volume_from_segments id (source ∷ sub_dir ∷ uuid ∷ rest) = do
  or_err (validate_path sub_dir) invalid_sub_dir
  or_err (validate_path uuid) invalid_uuid
  ok (record {
    id = id;
    source = unc_source source;
    sub_dir = sub_dir;
    size = pos 0;
    uuid = uuid;
    on_delete = elim rest [ [] ↦ [] | on_delete ∷ _ ↦ on_delete ];
  })

unfoldable pub smb_vol_from_id : Text → Result Reason SmbVolume
unfolding volume_from_segments
smb_vol_from_id id = volume_from_segments id (split id separator)

-- `none` is the nil pointer
unfoldable pub internal_mount_path : Text → Option SmbVolume → Text
internal_mount_path working_mount_dir none = []
internal_mount_path working_mount_dir (some vol) =
    join_path working_mount_dir (if text_eq vol.uuid [] then vol.sub_dir else vol.uuid)

unfoldable pub internal_volume_path : Text → SmbVolume → Text
unfolding internal_mount_path
internal_volume_path working_mount_dir vol =
    join_path (internal_mount_path working_mount_dir (some vol)) vol.sub_dir
