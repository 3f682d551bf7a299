-- ===== src/CsiProxy/Spared.antt =====
-- The mapping of a volume that is mounted is spared.
use csi_driver_smb.Base.{
  ◌≡◌, refl, sym, ◌∙◌, ap, Bool, true, false, Bool-cases, inl, inr, Option, none, some, List, ◌∷◌,
  ◌++◌, All,
}
use csi_driver_smb.Text.{Text, text_eq}
use csi_driver_smb.Text.Search.{text_eq_iff}
use csi_driver_smb.Base.Int.{pos}
use csi_driver_smb.Result.{Result, ok, err}
use csi_driver_smb.Result.Laws.{ok-injective}
use csi_driver_smb.Exec.{Exec}
use csi_driver_smb.Exec.Keeps.{
  Keeps, Keeps-pure, Keeps-lift, Keeps-if, Keeps-bind, Keeps-bind_lift, Keeps-check,
}
use csi_driver_smb.World.{OsError}
use csi_driver_smb.Refcount.{
  References, reference_dir, has_reference, get_md5, get_volume_id_references_count,
}
use csi_driver_smb.Refcount.Counts.{
  increment-kept, decrement-kept, has_reference-get_volume_id_references_count,
}
use csi_driver_smb.CsiProxy.{
  ProxyCall, remove_smb_global_mapping, Answers, Proxy, ask, ask_flag, on_references,
  mapping_or_error, is_zero, remove_unused, drop_reference, drop_linked, add_reference, exists_path,
  make_dir, remove_dir, link, is_likely_not_mount_point, smb_mount, smb_unmount,
}
use csi_driver_smb.CsiProxy.Removal.{removals, is_zero_lem}

-- the mapping of this path has another directory of references
abbrev pub Elsewhere : Text → Text → Type 0
Elsewhere dir remote =
    (mapping : Text)
    → mapping_or_error remote ≡ ok mapping
    → text_eq (reference_dir mapping) dir ≡ false

-- The file is still among the references in the directory, and no removal that was asked for since is
-- that of a mapping with this directory.
pub record Spared (dir file : Text) (asked : List Text) (p : Proxy) : Type 0 where
  pub held : has_reference dir file p.references ≡ true
  pub since : List Text
  pub grown : removals p.calls ≡ since ++ asked
  pub elsewhere : All (Elsewhere dir) since

module _ (dir file : Text) (asked : List Text) where
  abbrev P : Proxy → Type 0
  P = Spared dir file asked

  -- It stays so where the file is kept and no removal was asked for.
  Spared-still :
      (p p' : Proxy)
      → has_reference dir file p'.references ≡ true
      → removals p'.calls ≡ removals p.calls
      → P p
      → P p'
  Spared-still p p' held same h = record {
    held = held;
    since = h.since;
    grown = same ∙ h.grown;
    elsewhere = h.elsewhere;
  }

  Keeps-ask :
      (c : ProxyCall) (o : Option OsError)
      → ((cs : List ProxyCall) → removals (c ∷ cs) ≡ removals cs)
      → Keeps P (ask c o)
  unfolding ask
  Keeps-ask c none same = record { after = λ p h. Spared-still p _ h.held (same p.calls) h }
  Keeps-ask c (some _) same = record { after = λ p h. Spared-still p _ h.held (same p.calls) h }

  Spared-asked :
      (remote : Text) (p p' : Proxy)
      → p'.references ≡ p.references
      → removals p'.calls ≡ remote ∷ removals p.calls
      → Elsewhere dir remote
      → P p
      → P p'
  Spared-asked remote p p' kept one e h = record {
    held = ap (has_reference dir file) kept ∙ h.held;
    since = remote ∷ h.since;
    grown = one ∙ ap (λ rs. remote ∷ rs) h.grown;
    elsewhere = (e, h.elsewhere);
  }

  Spared-removal :
      (remote : Text) (o : Option OsError) (p : Proxy)
      → Elsewhere dir remote
      → P p
      → P (ask (remove_smb_global_mapping remote) o p).1
  unfolding ask
  Spared-removal remote none p e h = Spared-asked remote p _ refl refl e h
  Spared-removal remote (some _) p e h = Spared-asked remote p _ refl refl e h

  Keeps-ask_flag :
      (c : ProxyCall) (r : Result OsError Bool)
      → ((cs : List ProxyCall) → removals (c ∷ cs) ≡ removals cs)
      → Keeps P (ask_flag c r)
  unfolding ask_flag
  Keeps-ask_flag c r same = record { after = λ p h. Spared-still p _ h.held (same p.calls) h }

  Keeps-on_references :
      (m : Exec References OsError (Unit {0}))
      → ((refs : References)
          → has_reference dir file refs ≡ true
          → has_reference dir file (m refs).1 ≡ true)
      → Keeps P (on_references m)
  unfolding on_references
  Keeps-on_references m kept = record {
    after = λ p h. Spared-still p _ (kept p.references h.held) refl h;
  }

  pub Keeps-exists_path : (a : Answers) (path : Text) → Keeps P (exists_path a path)
  unfolding exists_path
  Keeps-exists_path a path = Keeps-ask_flag _ a.exists (λ cs. refl)

  Keeps-make_dir : (a : Answers) (path : Text) → Keeps P (make_dir a path)
  unfolding make_dir
  Keeps-make_dir a path = Keeps-ask _ a.mkdir (λ cs. refl)

  pub Keeps-remove_dir : (a : Answers) (path : Text) → Keeps P (remove_dir a path)
  unfolding remove_dir
  Keeps-remove_dir a path = Keeps-ask _ a.rmdir (λ cs. refl)

  pub Keeps-link : (a : Answers) (source target : Text) → Keeps P (link a source target)
  unfolding link
  Keeps-link a source target = Keeps-ask _ a.symlink (λ cs. refl)

  pub Keeps-is_likely_not_mount_point :
      (a : Answers) (path : Text) → Keeps P (is_likely_not_mount_point a path)
  unfolding is_likely_not_mount_point
  Keeps-is_likely_not_mount_point a path = Keeps-bind _ _ (Keeps-exists_path a path) λ found.
      Keeps-bind _ _ (Keeps-check found _)
        λ _. Keeps-bind _ _ (Keeps-ask_flag _ a.is_symlink (λ cs. refl)) λ linked. Keeps-pure _

  module _ (md5 : Text → Text) (b : Bool) (a : Answers) where
    Keeps-add_reference : (remote volume : Text) → Keeps P (add_reference md5 b a remote volume)
    unfolding add_reference
    Keeps-add_reference remote volume =
        Keeps-if b _ _
          (Keeps-bind _ _ (Keeps-lift _) λ mapping.
            Keeps-on_references _
              λ refs h. increment-kept md5 a.on_change mapping volume dir file refs remote h)
          (Keeps-pure tt)

    pub Keeps-smb_mount :
        (source target volume : Text) (options sensitive : List Text)
        → Keeps P (smb_mount md5 b a source target options sensitive volume)
    unfolding smb_mount
    Keeps-smb_mount source target volume options sensitive = Keeps-bind _ _ (Keeps-check _ _) λ _.
        Keeps-bind _ _ (Keeps-exists_path a _) λ found.
          Keeps-bind _ _ (Keeps-if found _ _ (Keeps-pure tt) (Keeps-make_dir a _)) λ _.
            Keeps-bind _ _
              (Keeps-if b _ _ (Keeps-bind _ _ (Keeps-lift _) λ _. Keeps-pure tt) (Keeps-pure tt))
              λ _.
                Keeps-bind _ _ (Keeps-ask _ a.new_mapping (λ cs. refl))
                  λ _. Keeps-add_reference _ volume

    -- a mapping whose count is 0 has no reference, so it is another one
    Spared-uncounted :
        (remote mapping : Text) (p : Proxy)
        → mapping_or_error remote ≡ ok mapping
        → get_volume_id_references_count a.on_count mapping p.references ≡ pos 0
        → P p
        → Elsewhere dir remote
    Spared-uncounted remote mapping p mapped none_left h other e =
        let same : other ≡ mapping = ok-injective (sym e ∙ mapped) in
        let free =
          has_reference-get_volume_id_references_count a.on_count mapping file p.references
            none_left in
        elim (Bool-cases (text_eq (reference_dir other) dir)) [
          | inr apart ↦ apart
          | inl one ↦
              (let d : reference_dir mapping ≡ dir =
                  ap reference_dir (sym same) ∙ (text_eq_iff (reference_dir other) dir).0 one in
                let free' = rw d at free in let held = h.held in cc)
        ]

    Keeps-remove_unused :
        (remote mapping : Text)
        → mapping_or_error remote ≡ ok mapping
        → Keeps P (remove_unused md5 b a remote mapping)
    unfolding remove_unused ask
    Keeps-remove_unused remote mapping mapped = record {
      after = λ p h.
          elim (Bool-cases
            (is_zero (get_volume_id_references_count a.on_count mapping p.references))) [
              | inr z ↦ rw z h
              | inl z ↦ rw z (
                  Spared-removal remote a.remove_mapping p
                    (Spared-uncounted remote mapping p mapped (is_zero_lem _ z) h) h)
            ];
    }

    Keeps-drop_reference :
        (remote volume : Text)
        → text_eq (get_md5 md5 volume) file ≡ false
        → Keeps P (drop_reference md5 b a remote volume)
    unfolding drop_reference
    Keeps-drop_reference remote volume other =
        Keeps-if b _ _
          (Keeps-bind_lift _ _ λ mapping mapped.
            Keeps-bind _ _
              (Keeps-on_references _
                λ refs h. decrement-kept md5 a.on_change mapping volume dir file refs other h)
              λ _. Keeps-remove_unused remote mapping mapped)
          (Keeps-pure tt)

    Keeps-drop_linked :
        (r : Result OsError Text) (volume : Text)
        → text_eq (get_md5 md5 volume) file ≡ false
        → Keeps P (drop_linked md5 b a r volume)
    unfolding drop_linked
    Keeps-drop_linked (err _) volume other = Keeps-pure tt
    Keeps-drop_linked (ok remote) volume other = Keeps-drop_reference _ volume other

    pub Keeps-smb_unmount :
        (target volume : Text)
        → text_eq (get_md5 md5 volume) file ≡ false
        → Keeps P (smb_unmount md5 b a target volume)
    unfolding smb_unmount
    Keeps-smb_unmount target volume other =
        Keeps-bind _ _ (Keeps-drop_linked a.read_link volume other) λ _. Keeps-remove_dir a target
