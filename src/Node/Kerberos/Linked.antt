-- ===== src/Node/Kerberos/Linked.antt =====
-- What a successful ensureKerberosCache has done.
use csi_driver_smb.Base.{
  ◌≡◌, refl, sym, ◌∙◌, ap, ◌⊎◌, inl, inr, Bool, true, false, Bool-cases, Option, none, some,
  Option-cases, List, ◌∷◌, ◌++◌,
}
use csi_driver_smb.Base.Int.{ℤ}
use csi_driver_smb.Text.{Text, codes}
use csi_driver_smb.Dict.{Dict}
use csi_driver_smb.Result.{
  ok, Reason, kerberos_directory, write_kerberos_failed, chown_kerberos_failed,
  symlink_kerberos_failed,
}
use csi_driver_smb.Result.Laws.{ok-injective}
use csi_driver_smb.Exec.{pure, raise, lift, wrap, check_none, ◌>>=◌, ◌>>◌}
use csi_driver_smb.Exec.Runs.{bind-ok}
use csi_driver_smb.Kerberos.{kerberos_file_path, volume_kerberos_cache_name}
use csi_driver_smb.Options.{has_kerberos_mount_option, get_cred_uid}
use csi_driver_smb.World.{
  OsError, Call, remove_all, lstat, stat, rename, symlink, write_file, chown, unique_suffix, Env,
  World, Run, note, perform, perform_flag, perform_text, check_os,
}
use csi_driver_smb.Node.Kerberos.{
  or_no_uid, get_kerberos_cache, kerberos_cache_directory_exists, remove_directory,
  rename_or_remove, write_kerberos_cache, ensure_kerberos_cache,
}

module _ (env : Env) where
  -- a call whose error ends the action, in a run that goes on
  checked_call-ok :
      {A : Type 0} (c : Call) (r : Reason) (m : Run Reason A) (w w' : World) (x : A)
      → (do e ← perform env c; check_none e r; m) w ≡ (ok x, w')
      → (env.error w.trace c ≡ none) × (m (note c w) ≡ (ok x, w'))
  unfolding perform check_none ◌>>=◌ pure raise
  checked_call-ok c r m w w' x h = elim (Option-cases (env.error w.trace c)) [
    | inl e ↦ (e, rw e at h)
    | inr (_, e) ↦ (let i = ap (λ x. x.0) (rw e at h) in cc)
  ]

  -- A directory at the path of the link is removed, and nothing else.
  abbrev pub Cleared : Text → World → World → Type 0
  Cleared file w w' = (w'.trace ≡ w.trace) ⊎ (w'.trace ≡ remove_all file ∷ w.trace)

  remove_directory-ok :
      (file : Text) (o : Option OsError × Bool) (w : World)
      → Cleared file w (remove_directory env file o w).1
  unfolding remove_directory perform ◌>>=◌ pure check_none raise
  remove_directory-ok file (none, false) w = inl refl
  remove_directory-ok file (some _, _) w = inl refl
  remove_directory-ok file (none, true) w =
      elim (Option-cases (env.error w.trace (remove_all file))) [
        | inl e ↦ rw e (inr refl)
        | inr (_, e) ↦ rw e (inr refl)
      ]

  directory_exists-ok :
      {A : Type 0} (directory : Text) (m : Run Reason A) (w w' : World) (x : A)
      → (do wrap (λ _. kerberos_directory) (kerberos_cache_directory_exists env directory); m) w
        ≡ (ok x, w')
      → m (note (stat directory) w) ≡ (ok x, w')
  unfolding kerberos_cache_directory_exists perform check_os wrap ◌>>=◌ pure raise
  directory_exists-ok directory m w w' x h =
      elim (Option-cases (env.error w.trace (stat directory))) [
        | inl e ↦ rw e at h
        | inr (_, e) ↦ (let i = ap (λ x. x.0) (rw e at h) in cc)
      ]

  -- The content was written to the file of the volume, which was given to the user; a link was made to
  -- it, and then moved to the user's cache, whose directory, if it was one, had been removed.
  pub record Linked (file content volume_file : Text) (uid : ℤ) (w w' : World) : Type 0 where
    pub temp : Text
    pub cleared : World
    pub written : env.error w.trace (write_file volume_file content) ≡ none
    pub owned : env.error (write_file volume_file content ∷ w.trace) (chown volume_file uid) ≡ none
    pub made_way :
        Cleared file
          (note
            (lstat file)
            (note (chown volume_file uid) (note (write_file volume_file content) w)))
          cleared
    pub linked : env.error (unique_suffix ∷ cleared.trace) (symlink volume_file temp) ≡ none
    pub moved :
        env.error (symlink volume_file temp ∷ unique_suffix ∷ cleared.trace) (rename temp file)
        ≡ none
    pub last :
        w'.trace ≡ rename temp file ∷ symlink volume_file temp ∷ unique_suffix ∷ cleared.trace

  rename_or_remove-ok :
      (temp : Text) (o : Option OsError) (b : Bool) (w w' : World)
      → rename_or_remove env temp o w ≡ (ok b, w')
      → (o ≡ none) × (b ≡ true) × (w' ≡ w)
  unfolding rename_or_remove perform ◌>>=◌ pure raise
  rename_or_remove-ok temp none b w w' h =
      (refl, ok-injective (sym (ap (λ x. x.0) h)), sym (ap (λ x. x.1) h))
  rename_or_remove-ok temp (some _) b w w' h = (let i = ap (λ x. x.0) h in cc)

  write_kerberos_cache-Linked :
      (directory volume_id file content : Text) (uid : ℤ) (b : Bool) (w w' : World)
      → write_kerberos_cache env directory volume_id uid (file, content) w ≡ (ok b, w')
      → (b ≡ true)
        × Linked file content
            (kerberos_file_path directory (volume_kerberos_cache_name volume_id))
            uid
            w
            w'
  unfolding write_kerberos_cache perform_flag perform_text perform
  write_kerberos_cache-Linked directory volume_id file content uid b w w' h =
      let volume_file = kerberos_file_path directory (volume_kerberos_cache_name volume_id) in
      let w₁ = note (write_file volume_file content) w in
      let w₂ = note (chown volume_file uid) w₁ in
      let w₃ = note (lstat file) w₂ in
      let (written, h₁) =
        checked_call-ok (write_file volume_file content) write_kerberos_failed _ w w' b h in
      let (owned, h₂) =
        checked_call-ok (chown volume_file uid) chown_kerberos_failed _ w₁ w' b h₁ in
      let (info, _, h₃) = bind-ok (perform_flag env (lstat file)) _ w₂ w' b h₂ in
      let (_, _, h₄) = bind-ok (remove_directory env file info) _ w₃ w' b h₃ in
      let w₄ = (remove_directory env file info w₃).1 in
      let (suffix, _, h₅) = bind-ok (perform_text env unique_suffix) _ w₄ w' b h₄ in
      let temp = file ++ codes ".tmp." ++ suffix.1 in
      let (linked, h₆) =
        checked_call-ok (symlink volume_file temp) symlink_kerberos_failed _ (note unique_suffix w₄)
          w' b h₅ in
      let w₆ = note (symlink volume_file temp) (note unique_suffix w₄) in
      let (o, i, h₇) = bind-ok (perform env (rename temp file)) _ w₆ w' b h₆ in
      let (none_left, done, last) =
        rename_or_remove-ok temp o b (note (rename temp file) w₆) w' h₇ in
      (
        done,
        record {
          temp = temp;
          cleared = w₄;
          written = written;
          owned = owned;
          made_way = remove_directory-ok file info w₃;
          linked = linked;
          moved = ok-injective i ∙ none_left;
          last = ap (λ x. x.trace) last;
        },
      )

or_no_uid-ok : (o : Option ℤ) (uid : ℤ) → or_no_uid o ≡ ok uid → o ≡ some uid
unfolding or_no_uid
or_no_uid-ok none uid h = cc
or_no_uid-ok (some n) uid h = ap some (ok-injective h)

-- What ensureKerberosCache does where it succeeds: without an option for Kerberos nothing. With one, the
-- flags name a user whose cache the secrets hold; its content was written to the file of the volume,
-- which was given to the user, and the user's link was moved to that file, each call with success.
pub ensure_kerberos_cache-Linked :
    (env : Env) (directory prefix volume_id : Text) (flags : List Text) (secrets : Dict) (b : Bool)
    (w w' : World)
    → ensure_kerberos_cache env directory prefix volume_id flags secrets w ≡ (ok b, w')
    → ((has_kerberos_mount_option flags ≡ false) × (b ≡ false) × (w' ≡ w))
      ⊎ ((has_kerberos_mount_option flags ≡ true)
          × (b ≡ true)
          × ((uid : ℤ) × (file : Text) × (content : Text) × (get_cred_uid flags ≡ some uid)
              × (get_kerberos_cache directory prefix uid (env.visit secrets) ≡ ok (file, content))
              × Linked env file content
                  (kerberos_file_path directory (volume_kerberos_cache_name volume_id))
                  uid
                  (note (stat directory) w)
                  w'))
unfolding ensure_kerberos_cache lift
ensure_kerberos_cache-Linked env directory prefix volume_id flags secrets b w w' h =
    elim (Bool-cases (has_kerberos_mount_option flags)) [
      | inr k ↦
          (let h₀ : pure {S = World} {E = Reason} false w ≡ (ok b, w') = rw k at h in
            inl (
              k,
              unfold pure in ok-injective (sym (ap (λ x. x.0) h₀)),
              unfold pure in sym (ap (λ x. x.1) h₀),
            ))
      | inl k ↦
          (let w₁ = note (stat directory) w in
            let h₁ = directory_exists-ok env directory _ w w' b (rw k at h) in
            let (uid, u, h₂) = bind-ok (lift (or_no_uid (get_cred_uid flags))) _ w₁ w' b h₁ in
            let (cache, c, h₃) =
              bind-ok (lift (get_kerberos_cache directory prefix uid (env.visit secrets))) _ w₁ w' b
                h₂ in
            let (done, linked) =
              write_kerberos_cache-Linked env directory volume_id cache.0 cache.1 uid b w₁ w' h₃ in
            inr (
              k,
              done,
              (uid, cache.0, cache.1, or_no_uid-ok (get_cred_uid flags) uid u, c, linked),
            ))
    ]
