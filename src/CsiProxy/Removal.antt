-- ===== src/CsiProxy/Removal.antt =====
-- When SMBUnmount removes a mapping.
use csi_driver_smb.Base.{
  ◌≡◌, refl, sym, ◌∙◌, ap, subst, Bool, true, false, Bool-cases, Option-cases, inl, inr, Option,
  none, some, List, [], ◌∷◌, length, arith,
}
use csi_driver_smb.Base.Int.{ℤ, pos, negsuc}
use csi_driver_smb.Text.{Text}
use csi_driver_smb.Result.{ok}
use csi_driver_smb.Result.Laws.{Result-cases}
use csi_driver_smb.Exec.{pure, lift, ◌>>=◌}
use csi_driver_smb.World.{OsError}
use csi_driver_smb.Refcount.{
  trim_backslash, References, reference_dir, has_reference, get_volume_id_references_count,
  decrement,
}
use csi_driver_smb.Refcount.Counts.{has_reference-get_volume_id_references_count}
use csi_driver_smb.CsiProxy.{
  ProxyCall, remove_smb_global_mapping, Answers, Proxy, ask, on_references, mapping_or_error,
  is_zero, remove_unused, drop_reference, drop_linked, smb_unmount, remove_dir,
}

-- the paths whose mapping csi-proxy was asked to remove
abbrev pub removals : List ProxyCall → List Text
removals [] = []
removals (remove_smb_global_mapping remote ∷ cs) = remote ∷ removals cs
removals (ProxyCall.path_exists _ ∷ cs) = removals cs
removals (ProxyCall.mkdir _ ∷ cs) = removals cs
removals (ProxyCall.rmdir _ ∷ cs) = removals cs
removals (ProxyCall.is_symlink _ ∷ cs) = removals cs
removals (ProxyCall.create_symlink _ _ ∷ cs) = removals cs
removals (ProxyCall.new_smb_global_mapping _ _ _ _ ∷ cs) = removals cs

-- No volume has a reference to the mapping of this path.
pub record Unreferenced (remote : Text) (refs : References) : Type 0 where
  pub mapping : Text
  pub mapped : mapping_or_error remote ≡ ok mapping
  pub free : (f : Text) → has_reference (reference_dir mapping) f refs ≡ false

never_longer : {A : Type 0} {R : Type 0} {x : A} {xs : List A} → xs ≡ x ∷ xs → R
never_longer h = let n = ap length h in ground arith

pub is_zero_lem : (n : ℤ) → is_zero n ≡ true → n ≡ pos 0
unfolding is_zero
is_zero_lem (pos n) h = ap pos (ground arith)
is_zero_lem (negsuc n) h = cc

Unreferenced-ask :
    (c : ProxyCall) (o : Option OsError) (remote : Text) (p : Proxy)
    → Unreferenced remote p.references
    → Unreferenced remote (ask c o p).1.references
unfolding ask
Unreferenced-ask c none remote p h = h
Unreferenced-ask c (some _) remote p h = h

calls-ask : (c : ProxyCall) (o : Option OsError) (p : Proxy) → (ask c o p).1.calls ≡ c ∷ p.calls
unfolding ask
calls-ask c none p = refl
calls-ask c (some _) p = refl

cons-injective : {A : Type 0} {x y : A} {xs ys : List A} → Path (List A) (x ∷ xs) (y ∷ ys) → x ≡ y
cons-injective h = cc

module _ (md5 : Text → Text) (a : Answers) where
  remove_unused-Unreferenced :
      (b : Bool) (remote mapping r : Text) (p : Proxy)
      → mapping_or_error remote ≡ ok mapping
      → removals (remove_unused md5 b a remote mapping p).1.calls ≡ r ∷ removals p.calls
      → Unreferenced r (remove_unused md5 b a remote mapping p).1.references
  unfolding remove_unused
  remove_unused-Unreferenced b remote mapping r p mapped h =
      let count = get_volume_id_references_count a.on_count mapping p.references in
      elim (Bool-cases (is_zero count)) [
        | inl z ↦
            (let asked : remote ∷ removals p.calls ≡ r ∷ removals p.calls =
                sym (ap removals (calls-ask (remove_smb_global_mapping remote) a.remove_mapping p))
                ∙ (rw z at h) in
              let free : Unreferenced remote p.references = record {
                mapping = mapping;
                mapped = mapped;
                free = λ f.
                    has_reference-get_volume_id_references_count a.on_count mapping f p.references
                      (is_zero_lem count z);
              } in
              rw z (
                Unreferenced-ask (remove_smb_global_mapping remote) a.remove_mapping r p
                  (subst (λ x. Unreferenced x p.references) (cons-injective asked) free)))
        | inr z ↦ never_longer (rw z at h)
      ]

  drop_reference-Unreferenced :
      (b : Bool) (remote volume r : Text) (p : Proxy)
      → removals (drop_reference md5 b a remote volume p).1.calls ≡ r ∷ removals p.calls
      → Unreferenced r (drop_reference md5 b a remote volume p).1.references
  unfolding drop_reference on_references lift ◌>>=◌ pure
  drop_reference-Unreferenced false remote volume r p h = never_longer h
  drop_reference-Unreferenced true remote volume r p h =
      elim (Result-cases (mapping_or_error remote)) [
        | inr (_, e) ↦ never_longer (rw e at h)
        | inl (m, e) ↦ elim (Result-cases (decrement md5 a.on_change m volume p.references).0) [
          | inr (_, d) ↦ never_longer (rw (e, d) at h)
          | inl (_, d) ↦
              rw (e, d)
                (remove_unused-Unreferenced true remote m r
                  (record p { references = (decrement md5 a.on_change m volume p.references).1 }) e
                  (rw (e, d) at h))
        ]
      ]

  remove_dir-removals :
      (target : Text) (p : Proxy)
      → (removals (remove_dir a target p).1.calls ≡ removals p.calls)
        × ((remove_dir a target p).1.references ≡ p.references)
  unfolding remove_dir ask
  remove_dir-removals target p = elim (Option-cases a.rmdir) [
    | inl e ↦ rw e (refl, refl)
    | inr (_, e) ↦ rw e (refl, refl)
  ]

  removed_dir-Unreferenced :
      (target r : Text) (before : List Text) (p : Proxy)
      → (removals p.calls ≡ r ∷ before → Unreferenced r p.references)
      → removals (remove_dir a target p).1.calls ≡ r ∷ before
      → Unreferenced r (remove_dir a target p).1.references
  removed_dir-Unreferenced target r before p step h =
      let same = remove_dir-removals target p in
      subst (Unreferenced r) (sym same.1) (step (sym same.0 ∙ h))

  -- If SMBUnmount asks for the removal of a mapping, then afterwards no volume has a reference to the
  -- mapping.
  pub smb_unmount-Unreferenced :
      (b : Bool) (target volume r : Text) (p : Proxy)
      → removals (smb_unmount md5 b a target volume p).1.calls ≡ r ∷ removals p.calls
      → Unreferenced r (smb_unmount md5 b a target volume p).1.references
  unfolding smb_unmount drop_linked ◌>>=◌ pure drop_reference
  smb_unmount-Unreferenced b target volume r p h = elim (Result-cases a.read_link) [
    | inr (_, e) ↦
        rw e
          (removed_dir-Unreferenced target r (removals p.calls) p (λ i. never_longer i) (rw e at h))
    | inl (remote, e) ↦
        (let path = trim_backslash remote in
          let dropped = drop_reference md5 b a path volume p in
          let step = drop_reference-Unreferenced b path volume r p in
          elim (Result-cases dropped.0) [
            | inl (_, d) ↦
                rw (e, d)
                  (removed_dir-Unreferenced target r (removals p.calls) dropped.1 step
                    (rw (e, d) at h))
            | inr (_, d) ↦ rw (e, d) (step (rw (e, d) at h))
          ])
  ]
