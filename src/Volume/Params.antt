-- ===== src/Volume/Params.antt =====
-- newSMBVolume of controllerserver.go.
use csi_driver_smb.Base.{Option, none, some, [], ◌∷◌, ◌++◌, if◌then◌else◌, is_empty, not}
use csi_driver_smb.Base.Int.{ℤ}
use csi_driver_smb.Result.{
  Reason, Result, ok, err, ◌>>=◌, ◌>>◌, or_err, require, invalid_parameter, source_required,
  invalid_source, invalid_sub_dir,
}
use csi_driver_smb.Text.{Text, text_eq, to_lower}
use csi_driver_smb.Dict.{Dict, Visit, replace_with_map}
use csi_driver_smb.Names.{
  source_field, sub_dir_field, param_on_delete, pvc_namespace_key, pvc_name_key, pv_name_key,
  pvc_namespace_metadata, pvc_name_metadata, pv_name_metadata,
}
use csi_driver_smb.Volume.Defs.{
  SmbVolume, validate_path, validate_on_delete_value, volume_id_from_smb_vol,
}

-- subDirReplaceMap, whose keys are the three placeholders
pub record Metadata : Type 0 where
  pub pvc_namespace : Option Text
  pub pvc_name : Option Text
  pub pv_name : Option Text

abbrev pub no_metadata : Metadata
no_metadata = record { pvc_namespace = none; pvc_name = none; pv_name = none }

entry : Text → Option Text → Dict
entry k none = []
entry k (some v) = (k, v) ∷ []

unfoldable pub metadata_dict : Metadata → Dict
unfolding entry
metadata_dict m =
    entry pvc_namespace_metadata m.pvc_namespace
    ++ (entry pvc_name_metadata m.pvc_name ++ entry pv_name_metadata m.pv_name)

-- the cases of `switch strings.ToLower(k)`
pub data ParamKey : Type 0 where
  source sub_dir on_delete pvc_namespace pvc_name pv_name other : ParamKey

pub ParamKey-discrete : Discrete ParamKey
ParamKey-discrete = hlevel

unfoldable pub param_key : Text → ParamKey
param_key k =
    let l = to_lower k in
    if text_eq l source_field
    then source
    else if text_eq l sub_dir_field
    then sub_dir
    else if text_eq l param_on_delete
    then on_delete
    else if text_eq l pvc_namespace_key
    then pvc_namespace
    else if text_eq l pvc_name_key
    then pvc_name
    else if text_eq l pv_name_key
    then pv_name
    else other

-- the variables that the loop over the parameters assigns
pub record VolumeParams : Type 0 where
  pub source : Text
  pub sub_dir : Text
  pub on_delete : Text
  pub metadata : Metadata

abbrev pub no_params : VolumeParams
no_params = record { source = []; sub_dir = []; on_delete = []; metadata = no_metadata }

unfoldable pub set_param : ParamKey → Text → VolumeParams → Result Reason VolumeParams
set_param ParamKey.source v p = ok (record p { source = v })
set_param ParamKey.sub_dir v p = ok (record p { sub_dir = v })
set_param ParamKey.on_delete v p = ok (record p { on_delete = v })
set_param ParamKey.pvc_namespace v p =
    ok (record p { metadata = record (p.metadata) { pvc_namespace = some v } })
set_param ParamKey.pvc_name v p =
    ok (record p { metadata = record (p.metadata) { pvc_name = some v } })
set_param ParamKey.pv_name v p =
    ok (record p { metadata = record (p.metadata) { pv_name = some v } })
set_param ParamKey.other v p = err invalid_parameter

unfoldable pub parse_params : VolumeParams → Dict → Result Reason VolumeParams
unfolding set_param param_key
parse_params p [] = ok p
parse_params p ((k, v) ∷ params) = do q ← set_param (param_key k) v p; parse_params q params

-- The volume before its policy and its id are set.
abbrev pub named_volume : Visit → Text → ℤ → VolumeParams → SmbVolume
named_volume visit name size p = record {
  id = [];
  source = p.source;
  sub_dir =
      if is_empty p.sub_dir
      then name
      else replace_with_map visit p.sub_dir (metadata_dict p.metadata);
  size = size;
  uuid = if is_empty p.sub_dir then [] else name;
  on_delete = [];
}

unfoldable pub volume_of_params : Visit → Text → ℤ → Text → VolumeParams → Result Reason SmbVolume
volume_of_params visit name size default_on_delete_policy p = do
  require (not (is_empty p.source)) source_required
  let vol = named_volume visit name size p
  validate_on_delete_value p.on_delete
  or_err (validate_path vol.source) invalid_source
  or_err (validate_path vol.sub_dir) invalid_sub_dir
  let vol' = record vol {
    on_delete = if is_empty p.on_delete then default_on_delete_policy else p.on_delete;
  }
  ok (record vol' { id = volume_id_from_smb_vol vol' })

unfoldable pub new_smb_volume : Visit → Text → ℤ → Dict → Text → Result Reason SmbVolume
unfolding parse_params volume_of_params
new_smb_volume visit name size params default_on_delete_policy = do
  p ← parse_params no_params (visit params)
  volume_of_params visit name size default_on_delete_policy p
