-- ===== src/Controller/Delete/Policy.antt =====
-- The policy of a volume, read back from its id.
use csi_driver_smb.Base.{
  ◌≡◌, refl, Bool, true, false, ◌||◌, [], ◌∷◌, if◌then◌else◌, is_empty, Bool-cases, inl, inr,
}
use csi_driver_smb.Text.{Text, text_eq, to_lower, equal_fold}
use csi_driver_smb.Result.{ok}
use csi_driver_smb.Names.{retain, archive}
use csi_driver_smb.Volume.Defs.{
  SmbVolume, on_delete_element, validate_path, smb_vol_from_id, volume_id_from_smb_vol,
}
use csi_driver_smb.Volume.Id.{NoHash, kept_by_id, smb_vol_from_id-volume_id_from_smb_vol}
use csi_driver_smb.Controller.Delete.{on_delete_policy}

is_kept : Text → Bool
is_kept s = equal_fold s retain || equal_fold s archive

-- a policy that an id keeps is not empty
is_kept-is_empty : (s : Text) → is_kept s ≡ true → is_empty s ≡ false
unfolding is_kept equal_fold to_lower text_eq
is_kept-is_empty [] h = cc
is_kept-is_empty (c ∷ s) h = refl

pub on_delete_policy-kept_by_id :
    (default : Text) (vol : SmbVolume)
    → on_delete_policy default (kept_by_id vol) ≡ (
        if equal_fold vol.on_delete retain || equal_fold vol.on_delete archive
        then vol.on_delete
        else default)
unfolding on_delete_policy on_delete_element is_kept
on_delete_policy-kept_by_id default vol = elim (Bool-cases (is_kept vol.on_delete)) [
  | inl e ↦ rw (e, is_kept-is_empty vol.on_delete e) refl
  | inr e ↦ rw e refl
]

-- From the id that CreateVolume makes of a volume whose parts hold no `#` and pass the validation,
-- DeleteVolume reads a volume, and follows for it the policy of its creation if that is retain or
-- archive, and the driver's own policy otherwise: also if the volume was created with delete.
pub on_delete_policy-smb_vol_from_id :
    (default : Text) (vol : SmbVolume)
    → NoHash vol.source
    → NoHash vol.sub_dir
    → NoHash vol.uuid
    → validate_path vol.sub_dir ≡ ok tt
    → validate_path vol.uuid ≡ ok tt
    → (read : SmbVolume) × (smb_vol_from_id (volume_id_from_smb_vol vol) ≡ ok read)
      × (on_delete_policy default read ≡ (
          if equal_fold vol.on_delete retain || equal_fold vol.on_delete archive
          then vol.on_delete
          else default))
on_delete_policy-smb_vol_from_id default vol hs hd hu vd vu = (
  kept_by_id vol,
  smb_vol_from_id-volume_id_from_smb_vol vol hs hd hu vd vu,
  on_delete_policy-kept_by_id default vol,
)
