-- ===== src/Controller/Create/Made.antt =====
-- The volumes that CreateVolume answers with.
use csi_driver_smb.Base.{◌≡◌, ◌≢◌, refl, sym, ◌∙◌, ap, List, [], ◌∷◌}
use csi_driver_smb.Result.{ok}
use csi_driver_smb.Result.Laws.{ok-injective}
use csi_driver_smb.Exec.Yields.{
  Yields, Yields-pure, Yields-raise, Yields-if, Yields-finally, Yields-bind, Yields-bind_wrap,
  Yields-value, Yields-weaken,
}
use csi_driver_smb.World.{Env, World}
use csi_driver_smb.Config.{Config}
use csi_driver_smb.FilePath.Elements.{NoDots}
use csi_driver_smb.Volume.Defs.{SmbVolume, validate_path, smb_vol_from_id, internal_volume_path}
use csi_driver_smb.Volume.Params.{new_smb_volume}
use csi_driver_smb.Volume.Id.{NoHash, kept_by_id}
use csi_driver_smb.Volume.Agreement.{new_smb_volume-smb_vol_from_id}
use csi_driver_smb.Node.Context.{VolumeCapability}
use csi_driver_smb.Controller.Create.{
  CreateRequest, CsiVolume, create_locked, create_with_lock, create_volume, smb_vol_to_csi,
}

-- the volume that a request asks for
pub record Made (env : Env) (cfg : Config) (req : CreateRequest) (csi : CsiVolume) : Type 0 where
  pub volume : SmbVolume
  pub asked :
      new_smb_volume env.visit req.name req.required_bytes req.parameters
        cfg.default_on_delete_policy
      ≡ ok volume
  pub id : csi.volume_id ≡ volume.id

module _ (env : Env) (cfg : Config) (req : CreateRequest) where
  HasId : SmbVolume → CsiVolume → Type 0
  HasId vol csi = csi.volume_id ≡ vol.id

  Yields-create_locked :
      (c : VolumeCapability) (cs : List VolumeCapability) (vol : SmbVolume)
      → Yields (HasId vol) (create_locked env cfg req c cs vol)
  unfolding create_locked smb_vol_to_csi HasId
  Yields-create_locked c cs vol =
      Yields-if _ _ _ (Yields-bind _ _ λ _. Yields-pure _ refl)
        (Yields-bind _ _ λ _. Yields-pure _ refl)

  Yields-create_with_lock :
      (cs : List VolumeCapability) (vol : SmbVolume)
      → Yields (HasId vol) (create_with_lock env cfg req cs vol)
  unfolding create_with_lock
  Yields-create_with_lock [] vol = Yields-raise _
  Yields-create_with_lock (c ∷ cs) vol =
      Yields-bind _ _ λ _. Yields-bind _ _ λ _. Yields-finally _ _ (Yields-create_locked c cs vol)

  pub Yields-create_volume : Yields (Made env cfg req) (create_volume env cfg req)
  unfolding create_volume HasId
  Yields-create_volume = Yields-bind _ _ λ _. Yields-bind _ _ λ _. Yields-bind_wrap _ _ _ λ vol e.
      Yields-weaken _ (λ csi id. record { volume = vol; asked = e; id = id })
        (Yields-create_with_lock req.capabilities vol)

  -- The id in CreateVolume's answer can be read, by DeleteVolume for one, and what is read has the
  -- directory of the volume that was created: if the working directory is given and holds no `..`, the
  -- volume's source, subdirectory and uuid hold no `#`, and its uuid holds no `..`.
  pub create_volume-smb_vol_from_id :
      cfg.working_mount_dir ≢ []
      → NoDots cfg.working_mount_dir
      → (vol : SmbVolume)
      → new_smb_volume env.visit req.name req.required_bytes req.parameters
          cfg.default_on_delete_policy
        ≡ ok vol
      → NoHash vol.source
      → NoHash vol.sub_dir
      → NoHash vol.uuid
      → validate_path vol.uuid ≡ ok tt
      → (w : World) (csi : CsiVolume) → (create_volume env cfg req w).0 ≡ ok csi
      → (smb_vol_from_id csi.volume_id ≡ ok (kept_by_id vol))
        × (internal_volume_path cfg.working_mount_dir (kept_by_id vol)
            ≡ internal_volume_path cfg.working_mount_dir vol)
  create_volume-smb_vol_from_id given clear vol asked hs hd hu vu w csi answered =
      let made = Yields-value _ w csi Yields-create_volume answered in
      let same = ok-injective (sym made.asked ∙ asked) in
      let (read, path) =
        new_smb_volume-smb_vol_from_id cfg.working_mount_dir given clear env.visit req.name
          req.required_bytes req.parameters cfg.default_on_delete_policy vol asked hs hd hu vu in
      (rw (made.id ∙ ap (λ (v : SmbVolume). v.id) same) read, path)
