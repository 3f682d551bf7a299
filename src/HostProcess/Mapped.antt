-- ===== src/HostProcess/Mapped.antt =====
-- What a mount of a host process does with the mapping of its remote path.
use csi_driver_smb.Base.{
  ◌≡◌, refl, sym, ◌∙◌, ap, Bool, true, false, not, ◌&&◌, Bool-cases, Option-cases, inl, inr, none,
  List, [], ◌∷◌, ◌++◌, is_empty, if◌then◌else◌, ◌⊎◌,
}
use csi_driver_smb.Text.{Text, codes, has_prefix, to_lower, equal_fold, trim_space}
use csi_driver_smb.Result.{ok}
use csi_driver_smb.Result.Laws.{ok-injective}
use csi_driver_smb.Exec.{wrap, lift, pure, ◌>>=◌, ◌>>◌}
use csi_driver_smb.Exec.Runs.{bind-ok, bind_known}
use csi_driver_smb.Refcount.{trim_backslash}
use csi_driver_smb.HostProcess.Calls.{
  MachineCall, lstat, read_link, read_dir, mkdir_all, remove_all, remove, symlink, get_mapping,
  remove_mapping, test_path, new_mapping, Machine, Machined, ask, ask_text, tried,
}
use csi_driver_smb.HostProcess.Files.{valid_path, path_valid}
use csi_driver_smb.HostProcess.Mappings.{
  is_smb_mapped, new_smb_global_mapping, remove_smb_global_mapping,
}
use csi_driver_smb.HostProcess.Sharing.{answers}
use csi_driver_smb.HostProcess.{still_mapped, map_and_link}

-- the requests that make and remove mappings
abbrev pub changes : List MachineCall → List MachineCall
changes [] = []
changes (remove_mapping remote ∷ cs) = remove_mapping remote ∷ changes cs
changes (new_mapping remote user password ∷ cs) = new_mapping remote user password ∷ changes cs
changes (lstat _ ∷ cs) = changes cs
changes (read_link _ ∷ cs) = changes cs
changes (read_dir _ ∷ cs) = changes cs
changes (mkdir_all _ ∷ cs) = changes cs
changes (remove_all _ ∷ cs) = changes cs
changes (remove _ ∷ cs) = changes cs
changes (symlink _ _ ∷ cs) = changes cs
changes (get_mapping _ ∷ cs) = changes cs
changes (test_path _ ∷ cs) = changes cs

module _ (a : Machine) where
  -- the remote path has a mapping, as far as can be told
  pub is_mapped : Text → Bool
  is_mapped remote =
      answers (a.error (get_mapping remote))
      && not (is_empty (a.text (get_mapping remote)))
      && equal_fold (trim_space (a.text (get_mapping remote))) (codes "OK")

  pub is_valid : Text → Bool
  is_valid remote =
      answers (a.error (test_path remote))
      && has_prefix (to_lower (a.text (test_path remote))) (codes "true")

  tried-is_smb_mapped :
      (remote : Text) (cs : List MachineCall)
      → tried false (is_smb_mapped a remote) cs ≡ (ok (is_mapped remote), get_mapping remote ∷ cs)
  unfolding is_mapped tried is_smb_mapped ask_text pure ◌>>=◌
  tried-is_smb_mapped remote cs = elim (Option-cases (a.error (get_mapping remote))) [
    | inl e ↦ rw e refl
    | inr (_, e) ↦ rw e refl
  ]

  tried-path_valid :
      (remote : Text) (cs : List MachineCall)
      → tried false (path_valid a remote) cs ≡ (ok (is_valid remote), test_path remote ∷ cs)
  unfolding is_valid tried path_valid ask_text pure ◌>>=◌
  tried-path_valid remote cs = elim (Option-cases (a.error (test_path remote))) [
    | inl e ↦ rw e refl
    | inr (_, e) ↦ rw e refl
  ]

  ask-ok :
      (c : MachineCall) (cs : List MachineCall)
      → (ask a c cs).0 ≡ ok tt
      → (a.error c ≡ none) × ((ask a c cs).1 ≡ c ∷ cs)
  unfolding ask
  ask-ok c cs h = elim (Option-cases (a.error c)) [
    | inl e ↦ (e, refl)
    | inr (_, e) ↦ (let i = rw e at h in cc)
  ]

  -- the requests that a successful mount makes about its mapping, the latest first
  abbrev pub expected_changes : Text → Text → Text → List MachineCall
  expected_changes remote user password =
      if is_mapped remote
      then if is_valid remote
        then []
        else new_mapping remote user password ∷ remove_mapping (trim_backslash remote) ∷ []
      else new_mapping remote user password ∷ []

  -- The mapping was there and valid, or it was made.
  abbrev pub Mapped : Text → Text → Text → Type 0
  Mapped remote user password =
      ((is_mapped remote && is_valid remote) ≡ true)
      ⊎ (a.error (new_mapping remote user password) ≡ none)

  -- The last call made the link; no path needs none.
  abbrev pub Linked : Text → Text → List MachineCall → Type 0
  Linked remote local cs =
      (is_empty local ≡ true)
      ⊎ ((earlier : List MachineCall) × (cs ≡ symlink remote local ∷ earlier)
          × (a.error (symlink remote local) ≡ none))

  link_step : Text → Text → Machined (Unit {0})
  link_step remote local =
      if is_empty local then pure tt else (do valid_path local; ask a (symlink remote local))

  link_step-ok :
      (remote local : Text) (cs cs' : List MachineCall)
      → link_step remote local cs ≡ (ok tt, cs')
      → Linked remote local cs' × (changes cs' ≡ changes cs)
  unfolding link_step valid_path lift wrap pure
  link_step-ok remote local cs cs' h = elim (Bool-cases (is_empty local)) [
    | inl e ↦ (inl e, ap (λ x. changes x.1) (sym (rw e at h)))
    | inr e ↦
        (let (_, _, h₁) = bind-ok (valid_path local) _ cs cs' tt (rw e at h) in
          let (done, last) = ask-ok (symlink remote local) cs (ap (λ x. x.0) h₁) in
          let last' = sym (ap (λ x. x.1) h₁) ∙ last in (inr (cs, last', done), ap changes last'))
  ]

  -- what follows once it is known whether a mapping is left
  with_mapping : Text → Text → Text → Text → Bool → Machined (Unit {0})
  unfolding link_step
  with_mapping remote local user password left = do
    if left then pure tt else new_smb_global_mapping a remote user password
    link_step remote local

  map_then_link-ok :
      (remote local user password : Text) (cs cs' : List MachineCall)
      → with_mapping remote local user password false cs ≡ (ok tt, cs')
      → (changes cs' ≡ new_mapping remote user password ∷ changes cs)
        × (a.error (new_mapping remote user password) ≡ none)
        × Linked remote local cs'
  unfolding with_mapping new_smb_global_mapping
  map_then_link-ok remote local user password cs cs' h =
      let (_, d, h₁) =
        bind-ok (ask a (new_mapping remote user password)) (λ _. link_step remote local) cs cs' tt
          h in
      let (done, last) = ask-ok (new_mapping remote user password) cs d in
      let (linked, same) = link_step-ok remote local _ cs' h₁ in
      (same ∙ ap changes last, done, linked)

  -- what follows the question whether the remote path is mapped
  after_look : Text → Text → Text → Text → Bool → Machined (Unit {0})
  unfolding with_mapping
  after_look remote local user password mapped = do
    left ← still_mapped a remote mapped
    with_mapping remote local user password left

  still_mapped-valid :
      (remote : Text) (cs : List MachineCall)
      → is_valid remote ≡ true
      → still_mapped a remote true cs ≡ (ok true, test_path remote ∷ cs)
  unfolding still_mapped ◌>>=◌ pure
  still_mapped-valid remote cs v = rw (tried-path_valid, v) refl

  still_mapped-invalid :
      (remote : Text) (cs : List MachineCall) (left : Bool)
      → is_valid remote ≡ false
      → (still_mapped a remote true cs).0 ≡ ok left
      → (left ≡ false)
        × ((still_mapped a remote true cs).1
            ≡ remove_mapping (trim_backslash remote) ∷ test_path remote ∷ cs)
  unfolding still_mapped ◌>>=◌ pure remove_smb_global_mapping ask
  still_mapped-invalid remote cs left v h =
      let h₁ = rw (tried-path_valid, v) at h in
      elim (Option-cases (a.error (remove_mapping (trim_backslash remote)))) [
        | inl e ↦ (let h₂ = rw e at h₁ in (ok-injective (sym h₂), rw (tried-path_valid, v, e) refl))
        | inr (_, e) ↦ (let h₂ = rw e at h₁ in cc)
      ]

  pub map_and_link-ok :
      (remote local user password : Text) (cs cs' : List MachineCall)
      → map_and_link a remote local user password cs ≡ (ok tt, cs')
      → (changes cs' ≡ expected_changes remote user password ++ changes cs)
        × Mapped remote user password
        × Linked remote local cs'
  unfolding map_and_link link_step with_mapping after_look still_mapped
  map_and_link-ok remote local user password cs cs' h =
      let looked = get_mapping remote ∷ cs in
      let rest = with_mapping remote local user password in
      let h₁ =
        bind_known (tried false (is_smb_mapped a remote)) (after_look remote local user password) cs
          cs' looked (is_mapped remote) tt (tried-is_smb_mapped remote cs) h in
      elim (Bool-cases (is_mapped remote)) [
        | inr m ↦
            (let h₂ =
                bind_known (pure false) rest looked cs' looked false tt (unfold pure in refl)
                  (rw m at h₁) in
              let (same, done, linked) =
                map_then_link-ok remote local user password looked cs' h₂ in
              rw m (same, inr done, linked))
        | inl m ↦ elim (Bool-cases (is_valid remote)) [
          | inl v ↦
              (let h₂ =
                  bind_known (still_mapped a remote true) rest looked cs'
                    (test_path remote ∷ looked) true tt (still_mapped-valid remote looked v)
                    (rw m at h₁) in
                let h₃ =
                  bind_known (pure tt) (λ _. link_step remote local) (test_path remote ∷ looked) cs'
                    (test_path remote ∷ looked) tt tt (unfold pure in refl) h₂ in
                let (linked, same) = link_step-ok remote local (test_path remote ∷ looked) cs' h₃ in
                rw (m, v) (same, inl refl, linked))
          | inr v ↦
              (let (left, d, h₂) =
                  bind-ok (still_mapped a remote true) rest looked cs' tt (rw m at h₁) in
                let (gone, asked) = still_mapped-invalid remote looked left v d in
                let (same, done, linked) =
                  map_then_link-ok remote local user password _ cs' (rw gone at h₂) in
                rw (m, v)
                  (
                    same ∙ ap (λ x. new_mapping remote user password ∷ changes x) asked,
                    inr done,
                    linked,
                  ))
        ]
      ]
