-- ===== src/CsiProxy/Mounted.antt =====
-- What a successful SMBMount leaves behind.
use csi_driver_smb.Base.{◌≡◌, ap, subst, inl, inr, true, List}
use csi_driver_smb.Text.{Text}
use csi_driver_smb.Result.{ok}
use csi_driver_smb.Exec.{Exec, lift, ◌>>=◌}
use csi_driver_smb.Refcount.{References, reference_dir, has_reference, get_md5}
use csi_driver_smb.Refcount.Made.{increment-has_reference}
use csi_driver_smb.CsiProxy.{
  Answers, Proxy, on_references, mapping_or_error, remote_source, add_reference, smb_mount,
}
use csi_driver_smb.Result.Laws.{Result-cases}

-- The volume has a reference to the mapping of this path.
pub record Referenced (md5 : Text → Text) (remote volume : Text) (refs : References) : Type 0 where
  pub mapping : Text
  pub mapped : mapping_or_error remote ≡ ok mapping
  pub held : has_reference (reference_dir mapping) (get_md5 md5 volume) refs ≡ true

-- what stands last in a successful run has succeeded
bind-last :
    {S E A B : Type 0} (m : Exec S E A) (f : A → Exec S E B) (s s' : S) (b : B)
    → (m >>= f) s ≡ (ok b, s')
    → (x : A) × (t : S) × (f x t ≡ (ok b, s'))
unfolding ◌>>=◌
bind-last m f s s' b h = elim (Result-cases (m s).0) [
  | inl (x, e) ↦ (x, (m s).1, rw e at h)
  | inr (_, e) ↦ (let h' = rw e at h in let i = ap (λ x. x.0) h' in cc)
]

module _ (md5 : Text → Text) where
  add_reference-Referenced :
      (a : Answers) (remote volume : Text) (p p' : Proxy)
      → add_reference md5 true a remote volume p ≡ (ok tt, p')
      → Referenced md5 remote volume p'.references
  unfolding add_reference on_references ◌>>=◌ lift
  add_reference-Referenced a remote volume p p' h = elim (Result-cases (mapping_or_error remote)) [
    | inl (m, e) ↦
        (let h' = rw e at h in
          let done = ap (λ x. x.0) h' in
          let refs = ap (λ x. x.1.references) h' in
          record {
            mapping = m;
            mapped = e;
            held =
                subst (λ x. has_reference (reference_dir m) (get_md5 md5 volume) x ≡ true) refs
                  (increment-has_reference md5 a.on_change m remote volume p.references done);
          })
    | inr (_, e) ↦ (let i = ap (λ x. x.0) (rw e at h) in cc)
  ]

  -- After an SMBMount that succeeded, with mappings to be removed at the unmount, the volume has a
  -- reference to the mapping of the source that was mounted.
  pub smb_mount-Referenced :
      (a : Answers) (source target volume : Text) (options sensitive : List Text) (p p' : Proxy)
      → smb_mount md5 true a source target options sensitive volume p ≡ (ok tt, p')
      → Referenced md5 (remote_source a.resolved source) volume p'.references
  unfolding smb_mount
  smb_mount-Referenced a source target volume options sensitive p p' h =
      let (_, p₁, h₁) = bind-last _ _ p p' tt h in
      let (_, p₂, h₂) = bind-last _ _ p₁ p' tt h₁ in
      let (_, p₃, h₃) = bind-last _ _ p₂ p' tt h₂ in
      let (_, p₄, h₄) = bind-last _ _ p₃ p' tt h₃ in
      let (_, p₅, h₅) = bind-last _ _ p₄ p' tt h₄ in
      add_reference-Referenced a (remote_source a.resolved source) volume p₅ p' h₅
