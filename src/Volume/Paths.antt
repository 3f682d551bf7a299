-- ===== src/Volume/Paths.antt =====
-- Where the driver mounts and works: no volume leaves the working directory.
use csi_driver_smb.Base.{
  ◌≡◌, ◌≢◌, refl, List, [], ◌∷◌, ◌++◌, append_assoc, All, All-append, Bool-cases, inl, inr, some,
  if◌then◌else◌,
}
use csi_driver_smb.Result.{ok, invalid_sub_dir, invalid_uuid}
use csi_driver_smb.Result.Laws.{or_err-ok, ok-injective}
use csi_driver_smb.Text.{Text, text_eq, split, fields_func}
use csi_driver_smb.FilePath.{slash, is_abs, elements, render, join_path}
use csi_driver_smb.FilePath.Elements.{
  plain, NoDots, IsPlain, split-IsPlain, elements-plain, join_path-render, join_path-join_path,
}
use csi_driver_smb.Volume.Defs.{
  SmbVolume, separator, validate_path, smb_vol_from_id, volume_from_segments, internal_mount_path,
  internal_volume_path,
}
use csi_driver_smb.Volume.Validation.{validate_path-NoDots}

-- A path whose elements are those of the directory and then any number of elements that go down: the
-- directory itself, or a path beneath it.
pub record Beneath (directory path : Text) : Type 0 where
  pub steps : List Text
  pub downward : All IsPlain steps
  pub spelled : path ≡ render (is_abs directory) (elements directory ++ steps)

-- the directory that a volume is mounted in
abbrev pub mount_dir : SmbVolume → Text
mount_dir vol = if text_eq vol.uuid [] then vol.sub_dir else vol.uuid

-- What `validatePath` has passed of a volume.
pub record IsSafe (vol : SmbVolume) : Type 0 where
  pub sub_dir : validate_path vol.sub_dir ≡ ok tt
  pub uuid : validate_path vol.uuid ≡ ok tt

mount_dir-NoDots : (vol : SmbVolume) → IsSafe vol → NoDots (mount_dir vol)
mount_dir-NoDots vol h = elim (Bool-cases (text_eq vol.uuid [])) [
  | inl e ↦ rw e (validate_path-NoDots vol.sub_dir h.sub_dir)
  | inr e ↦ rw e (validate_path-NoDots vol.uuid h.uuid)
]

module _ (directory : Text) (given : directory ≢ []) (clear : NoDots directory) where
  -- The mount directory of a volume whose parts are free of `..` lies beneath the working directory.
  pub internal_mount_path-Beneath :
      (vol : SmbVolume) → IsSafe vol → Beneath directory (internal_mount_path directory (some vol))
  unfolding internal_mount_path
  internal_mount_path-Beneath vol h =
      let safe = mount_dir-NoDots vol h in
      record {
        steps = plain (split (mount_dir vol) slash);
        downward = split-IsPlain (mount_dir vol) safe;
        spelled =
            rw (elements-plain directory clear)
              (join_path-render directory (mount_dir vol) given clear safe);
      }

  -- So does every path below it that holds no `..`.
  pub below_mount-Beneath :
      (vol : SmbVolume) (path : Text)
      → IsSafe vol
      → NoDots path
      → Beneath directory (join_path (internal_mount_path directory (some vol)) path)
  unfolding internal_mount_path
  below_mount-Beneath vol path h sub =
      let safe = mount_dir-NoDots vol h in
      record {
        steps = plain (split (mount_dir vol) slash) ++ plain (split path slash);
        downward =
            All-append IsPlain (plain (split (mount_dir vol) slash)) (plain (split path slash))
              (split-IsPlain (mount_dir vol) safe) (split-IsPlain path sub);
        spelled =
            rw (elements-plain directory clear, ← append_assoc)
              (join_path-join_path directory (mount_dir vol) path given clear safe sub);
      }

  -- If the directory is given and holds no `..`, and `validatePath` passes the subdirectory and the uuid
  -- of a volume, then the volume's own directory is made of the elements of the given directory and of
  -- elements that go down.
  pub internal_volume_path-Beneath :
      (vol : SmbVolume) → IsSafe vol → Beneath directory (internal_volume_path directory vol)
  unfolding internal_volume_path
  internal_volume_path-Beneath vol h =
      below_mount-Beneath vol vol.sub_dir h (validate_path-NoDots vol.sub_dir h.sub_dir)

volume_from_segments-IsSafe :
    (id : Text) (segments : List Text) (vol : SmbVolume)
    → volume_from_segments id segments ≡ ok vol
    → IsSafe vol
unfolding volume_from_segments validate_path fields_func
volume_from_segments-IsSafe id [] vol h = cc
volume_from_segments-IsSafe id (_ ∷ []) vol h = cc
volume_from_segments-IsSafe id (s ∷ d ∷ []) vol h =
    let (hd, e) = or_err-ok (validate_path d) invalid_sub_dir _ vol h in
    let e' = ok-injective e in record { sub_dir = rw (← e') hd; uuid = rw (← e') refl }
volume_from_segments-IsSafe id (s ∷ d ∷ u ∷ rest) vol h =
    let (hd, e) = or_err-ok (validate_path d) invalid_sub_dir _ vol h in
    let (hu, f) = or_err-ok (validate_path u) invalid_uuid _ vol e in
    let f' = ok-injective f in record { sub_dir = rw (← f') hd; uuid = rw (← f') hu }

-- If an id can be read, `validatePath` passes the subdirectory and the uuid of the volume that is read.
pub smb_vol_from_id-IsSafe :
    (id : Text) (vol : SmbVolume) → smb_vol_from_id id ≡ ok vol → IsSafe vol
unfolding smb_vol_from_id
smb_vol_from_id-IsSafe id vol h = volume_from_segments-IsSafe id (split id separator) vol h
