-- ===== src/Refcount/Made.antt =====
-- A reference that was made is there.
use csi_driver_smb.Base.{◌≡◌, refl, Option-cases, inl, inr, true}
use csi_driver_smb.Text.{Text}
use csi_driver_smb.Text.Search.{text_eq_refl}
use csi_driver_smb.Result.{ok}
use csi_driver_smb.Exec.{pure, raise, modify, ◌>>=◌}
use csi_driver_smb.Refcount.{
  References, Faults, reference_dir, has_reference, returned, get_md5, increment,
}
use csi_driver_smb.Refcount.Counts.{has_reference-put}

module _ (md5 : Text → Text) where
  pub increment-has_reference :
      (x : Faults) (mapping remote volume : Text) (refs : References)
      → (increment md5 x mapping remote volume refs).0 ≡ ok tt
      → has_reference
          (reference_dir mapping)
          (get_md5 md5 volume)
          (increment md5 x mapping remote volume refs).1
        ≡ true
  unfolding increment returned ◌>>=◌ pure raise modify
  increment-has_reference x mapping remote volume refs h =
      let d = text_eq_refl (reference_dir mapping) in
      let f = text_eq_refl (get_md5 md5 volume) in
      elim (Option-cases x.mkdir_all) [
        | inl e ↦ elim (Option-cases x.create) [
          | inl g ↦ elim (Option-cases x.write_string) [
            | inl i ↦ rw (e, g, i, has_reference-put, d, f) refl
            | inr (_, i) ↦ (let h' = rw (e, g, i) at h in cc)
          ]
          | inr (_, g) ↦ (let h' = rw (e, g) at h in cc)
        ]
        | inr (_, e) ↦ (let h' = rw e at h in cc)
      ]
