-- ===== src/Volume/Agreement.antt =====
-- The volume that CreateVolume made, and the volume that DeleteVolume reads from its id.
use csi_driver_smb.Base.{
  ◌≡◌, ◌≢◌, refl, ◌∙◌, false, not, List, [], ◌∷◌, arith, Bool-cases, inl, inr, is_empty,
}
use csi_driver_smb.Base.Int.{ℤ}
use csi_driver_smb.Result.{ok, source_required, invalid_source, invalid_sub_dir}
use csi_driver_smb.Result.Laws.{ok-injective, or_err-ok, require-ok, bind-ok}
use csi_driver_smb.Text.{Text, text_eq, trim, split_by, split, drop_empty, fields_func}
use csi_driver_smb.Text.Trim.{fields_func-trim}
use csi_driver_smb.Dict.{Dict, Visit}
use csi_driver_smb.FilePath.{slash, is_skipped}
use csi_driver_smb.FilePath.Elements.{plain, NoDots, is_slash, join_path-join_path}
use csi_driver_smb.Volume.Defs.{
  SmbVolume, validate_path, validate_on_delete_value, volume_id_from_smb_vol, smb_vol_from_id,
  internal_mount_path, internal_volume_path,
}
use csi_driver_smb.Volume.Params.{
  VolumeParams, no_params, parse_params, named_volume, volume_of_params, new_smb_volume,
}
use csi_driver_smb.Volume.Validation.{validate_path-NoDots, validate_path-trim}
use csi_driver_smb.Volume.Id.{NoHash, kept_by_id, smb_vol_from_id-volume_id_from_smb_vol}
use csi_driver_smb.Volume.Paths.{mount_dir, IsSafe}

-- What newSMBVolume sees to.
pub record IsNew (vol : SmbVolume) : Type 0 where
  pub id : vol.id ≡ volume_id_from_smb_vol vol
  pub named : is_empty vol.source ≡ false
  pub source : validate_path vol.source ≡ ok tt
  pub sub_dir : validate_path vol.sub_dir ≡ ok tt

volume_of_params-IsNew :
    (visit : Visit) (name : Text) (size : ℤ) (policy : Text) (p : VolumeParams) (vol : SmbVolume)
    → volume_of_params visit name size policy p ≡ ok vol
    → IsNew vol
unfolding volume_of_params volume_id_from_smb_vol
volume_of_params-IsNew visit name size policy p vol h =
    let (named, h₁) = require-ok (not (is_empty p.source)) source_required _ vol h in
    let (u, _, h₂) = bind-ok (validate_on_delete_value p.on_delete) _ vol h₁ in
    let (source, h₃) = or_err-ok (validate_path p.source) invalid_source _ vol h₂ in
    let (sub_dir, h₄) =
      or_err-ok (validate_path (named_volume visit name size p).sub_dir) invalid_sub_dir _ vol h₃ in
    let e = ok-injective h₄ in
    record {
      id = rw (← e) refl;
      named = rw (← e) (ground arith);
      source = rw (← e) source;
      sub_dir = rw (← e) sub_dir;
    }

-- A new volume has a source, neither its source nor its subdirectory holds a `..`, and its id is the
-- one that its parts make.
pub new_smb_volume-IsNew :
    (visit : Visit) (name : Text) (size : ℤ) (params : Dict) (policy : Text) (vol : SmbVolume)
    → new_smb_volume visit name size params policy ≡ ok vol
    → IsNew vol
unfolding new_smb_volume
new_smb_volume-IsNew visit name size params policy vol h =
    let (p, _, e) = bind-ok (parse_params no_params (visit params)) _ vol h in
    volume_of_params-IsNew visit name size policy p vol e

plain-drop_empty : (ps : List Text) → plain (drop_empty ps) ≡ plain ps
unfolding plain drop_empty is_skipped text_eq
plain-drop_empty [] = refl
plain-drop_empty ([] ∷ ps) = plain-drop_empty ps
plain-drop_empty ((c ∷ p) ∷ ps) = rw (plain-drop_empty ps) refl

-- slashes at the ends add no element
plain-trim : (s : Text) → plain (split (trim s slash) slash) ≡ plain (split s slash)
unfolding split fields_func
plain-trim s = rw (
  ← plain-drop_empty (split_by is_slash (trim s slash)),
  ← plain-drop_empty (split_by is_slash s),
  fields_func-trim is_slash slash refl s,
)

kept_by_id-IsSafe : (vol : SmbVolume) → IsSafe vol → IsSafe (kept_by_id vol)
kept_by_id-IsSafe vol h = record {
  sub_dir = validate_path-trim vol.sub_dir ∙ h.sub_dir;
  uuid = h.uuid;
}

mount_dir-kept_by_id :
    (vol : SmbVolume)
    → plain (split (mount_dir (kept_by_id vol)) slash) ≡ plain (split (mount_dir vol) slash)
mount_dir-kept_by_id vol = elim (Bool-cases (text_eq vol.uuid [])) [
  | inl e ↦ rw e (plain-trim vol.sub_dir)
  | inr e ↦ rw e refl
]

mount_dir-NoDots : (vol : SmbVolume) → IsSafe vol → NoDots (mount_dir vol)
mount_dir-NoDots vol h = elim (Bool-cases (text_eq vol.uuid [])) [
  | inl e ↦ rw e (validate_path-NoDots vol.sub_dir h.sub_dir)
  | inr e ↦ rw e (validate_path-NoDots vol.uuid h.uuid)
]

module _ (directory : Text) (given : directory ≢ []) (clear : NoDots directory) where
  internal_volume_path-kept_by_id :
      (vol : SmbVolume)
      → IsSafe vol
      → internal_volume_path directory (kept_by_id vol) ≡ internal_volume_path directory vol
  unfolding internal_volume_path internal_mount_path
  internal_volume_path-kept_by_id vol h =
      let k = kept_by_id-IsSafe vol h in
      rw
        (
          join_path-join_path directory (mount_dir vol) vol.sub_dir given clear
              (mount_dir-NoDots vol h) (validate_path-NoDots vol.sub_dir h.sub_dir),
          join_path-join_path directory (mount_dir (kept_by_id vol)) (trim vol.sub_dir slash) given
              clear (mount_dir-NoDots (kept_by_id vol) k)
              (validate_path-NoDots (trim vol.sub_dir slash) k.sub_dir),
          mount_dir-kept_by_id vol,
          plain-trim vol.sub_dir,
        )
        refl

  -- The id of a new volume whose source, subdirectory and uuid hold no `#`, and whose uuid holds no
  -- `..`, can be read, and the volume that is read has the same directory below the working directory.
  pub new_smb_volume-smb_vol_from_id :
      (visit : Visit) (name : Text) (size : ℤ) (params : Dict) (policy : Text) (vol : SmbVolume)
      → new_smb_volume visit name size params policy ≡ ok vol
      → NoHash vol.source
      → NoHash vol.sub_dir
      → NoHash vol.uuid
      → validate_path vol.uuid ≡ ok tt
      → (smb_vol_from_id vol.id ≡ ok (kept_by_id vol))
        × (internal_volume_path directory (kept_by_id vol) ≡ internal_volume_path directory vol)
  unfolding volume_id_from_smb_vol
  new_smb_volume-smb_vol_from_id visit name size params policy vol h hs hd hu vu =
      let new = new_smb_volume-IsNew visit name size params policy vol h in
      (
        rw new.id (smb_vol_from_id-volume_id_from_smb_vol vol hs hd hu new.sub_dir vu),
        internal_volume_path-kept_by_id vol (record { sub_dir = new.sub_dir; uuid = vu }),
      )
