-- ===== src/Volume/Id.antt =====
-- getSmbVolFromID after getVolumeIDFromSmbVol.
use csi_driver_smb.Base.{ℕ, ◌≡◌, true, [], ◌∷◌, ◌++◌, arith, ◌==◌, Bool-cases, inl, inr}
use csi_driver_smb.Base.Int.{pos}
use csi_driver_smb.Result.{ok}
use csi_driver_smb.Text.{Text, codes, to_lower, equal_fold, trim}
use csi_driver_smb.Text.Search.{text_eq_sound}
use csi_driver_smb.Text.Parts.{Lacks, split-join}
use csi_driver_smb.Text.Trim.{trim-Lacks, has_prefix-trim}
use csi_driver_smb.FilePath.{slash}
use csi_driver_smb.Names.{retain, archive}
use csi_driver_smb.Volume.Defs.{
  SmbVolume, separator, validate_path, on_delete_element, volume_id_from_smb_vol, smb_vol_from_id,
  unc_source, volume_from_segments,
}
use csi_driver_smb.Volume.Validation.{validate_path-trim}

-- no byte is the separator of volume ids
abbrev pub NoHash : Text → Type 0
NoHash = Lacks (λ c. c == separator)

NoHash-to_lower : (s : Text) → NoHash (to_lower s) → NoHash s
unfolding to_lower
NoHash-to_lower [] h = tt
NoHash-to_lower (c ∷ s) (hc, hs) = (ground arith, NoHash-to_lower s hs)

NoHash-equal_fold : (s t : Text) → NoHash (to_lower t) → equal_fold s t ≡ true → NoHash s
unfolding equal_fold
NoHash-equal_fold s t h e = NoHash-to_lower s (rw (text_eq_sound (to_lower s) (to_lower t) e) h)

NoHash-on_delete_element : (s : Text) → NoHash (on_delete_element s)
unfolding on_delete_element
NoHash-on_delete_element s = elim (Bool-cases (equal_fold s retain)) [
  | inl e ↦ rw e (NoHash-equal_fold s retain (unfold to_lower in ground arith) e)
  | inr e ↦ elim (Bool-cases (equal_fold s archive)) [
    | inl f ↦ rw (e, f) (NoHash-equal_fold s archive (unfold to_lower in ground arith) f)
    | inr f ↦ rw (e, f) tt
  ]
]

-- The parts of a volume that its id keeps.
abbrev pub kept_by_id : SmbVolume → SmbVolume
kept_by_id vol = record {
  id = volume_id_from_smb_vol vol;
  source = codes "//" ++ trim vol.source slash;
  sub_dir = trim vol.sub_dir slash;
  size = pos 0;
  uuid = vol.uuid;
  on_delete = on_delete_element vol.on_delete;
}

-- Reading the id of a volume gives back its source, with two slashes in front and none behind, its
-- subdirectory without slashes at the ends, its uuid, and its policy if that is retain or archive,
-- if none of these holds a `#` and the subdirectory and the uuid hold no `..`.
pub smb_vol_from_id-volume_id_from_smb_vol :
    (vol : SmbVolume)
    → NoHash vol.source
    → NoHash vol.sub_dir
    → NoHash vol.uuid
    → validate_path vol.sub_dir ≡ ok tt
    → validate_path vol.uuid ≡ ok tt
    → smb_vol_from_id (volume_id_from_smb_vol vol) ≡ ok (kept_by_id vol)
unfolding smb_vol_from_id volume_from_segments unc_source volume_id_from_smb_vol
smb_vol_from_id-volume_id_from_smb_vol vol hs hd hu vd vu =
    let trimmed = trim-Lacks (λ (c : ℕ). c == separator) slash in
    rw (
      split-join separator (trim vol.source slash)
          (trim vol.sub_dir slash ∷ vol.uuid ∷ on_delete_element vol.on_delete ∷ [])
          (
            trimmed vol.source hs,
            (trimmed vol.sub_dir hd, (hu, (NoHash-on_delete_element vol.on_delete, tt))),
          ),
      validate_path-trim vol.sub_dir,
      vd,
      vu,
      has_prefix-trim slash vol.source (slash ∷ []),
    )
