-- ===== src/Node/Kerberos/Own.antt =====
-- What the deletion of a volume's Kerberos cache removes.
use csi_driver_smb.Base.{◌≡◌, refl, ◌⊎◌, inl, inr, Bool-cases, Option, none, some, List, [], ◌∷◌}
use csi_driver_smb.Text.{Text, text_eq}
use csi_driver_smb.Text.Search.{text_eq_iff}
use csi_driver_smb.Result.{ok}
use csi_driver_smb.Exec.{pure, ◌>>=◌}
use csi_driver_smb.Exec.Keeps.{Keeps, Keeps-pure, Keeps-raise, Keeps-bind}
use csi_driver_smb.Kerberos.{kerberos_file_path, volume_kerberos_cache_name}
use csi_driver_smb.World.{
  OsError, not_exist, exist, corrupted, end_of_file, other, Call, remove, remove_all, read_link,
  stat, Trace, Env, World, perform, perform_text, perform_texts,
}
use csi_driver_smb.Node.Kerberos.{
  remove_link, look_at_link, remove_if_link, remove_links, remove_cache, after_directory,
  delete_kerberos_cache,
}
use csi_driver_smb.Invariant.{Keeps-perform, Keeps-perform_texts}

module _ (env : Env) (file : Text) where
  -- The last call asked where this path leads, and the answer was the file.
  abbrev pub LedTo : Text → Trace → Type 0
  LedTo path (read_link p ∷ calls) = (p ≡ path) × (env.text calls (read_link p) ≡ file)
  LedTo path _ = ⊥

  -- a call that removes at most the file, or a link to it
  abbrev pub IsOwn : Call → Trace → Type 0
  IsOwn (remove path) calls = (path ≡ file) ⊎ LedTo path calls
  IsOwn (remove_all _) calls = ⊥
  IsOwn _ calls = Unit

  -- Each call since the start is such a call.
  pub data Owns (start : Trace) : Trace → Type 0 where
    here : Owns start start
    call : {calls : Trace} → Owns start calls → (c : Call) → IsOwn c calls → Owns start (c ∷ calls)

module _ (env : Env) (file : Text) (start : Trace) where
  abbrev P : World → Type 0
  P w = Owns env file start w.trace

  Keeps-look_at_link : (path : Text) (o : Option OsError) → Keeps P (look_at_link env file path o)
  unfolding look_at_link remove_link perform perform_text ◌>>=◌ pure
  Keeps-look_at_link path (some _) = Keeps-pure tt
  Keeps-look_at_link path none = record {
    after = λ w h.
        let target = env.text w.trace (read_link path) in
        let looked = call h (read_link path) tt in
        elim (Bool-cases (text_eq target file)) [
          | inl e ↦ rw e (call looked (remove path) (inr (refl, (text_eq_iff target file).0 e)))
          | inr e ↦ rw e looked
        ];
  }

  Keeps-remove_links :
      (directory : Text) (names : List Text) → Keeps P (remove_links env directory file names)
  unfolding remove_links remove_if_link
  Keeps-remove_links directory [] = Keeps-pure tt
  Keeps-remove_links directory (name ∷ names) =
      Keeps-bind _ _
        (Keeps-bind _ _ (Keeps-perform env _ λ w h. call h _ tt) λ o. Keeps-look_at_link _ o)
        λ _. Keeps-remove_links directory names

  Keeps-remove_cache :
      (directory : Text) (o : Option OsError) → Keeps P (remove_cache env directory file o)
  unfolding remove_cache
  Keeps-remove_cache directory (some not_exist) = Keeps-pure tt
  Keeps-remove_cache directory (some exist) = Keeps-raise _
  Keeps-remove_cache directory (some corrupted) = Keeps-raise _
  Keeps-remove_cache directory (some end_of_file) = Keeps-raise _
  Keeps-remove_cache directory (some other) = Keeps-raise _
  Keeps-remove_cache directory none =
      Keeps-bind _ _ (Keeps-perform_texts env _ λ w h. call h _ tt) λ entries.
        Keeps-bind _ _ (Keeps-remove_links directory _)
          λ _. Keeps-bind _ _ (Keeps-perform env _ λ w h. call h _ (inl refl)) λ _. Keeps-pure tt

  -- looking at links never fails
  look_at_link-ok :
      (path : Text) (o : Option OsError) (w : World) → (look_at_link env file path o w).0 ≡ ok tt
  unfolding look_at_link remove_link perform perform_text ◌>>=◌ pure
  look_at_link-ok path (some _) w = refl
  look_at_link-ok path none w =
      elim (Bool-cases (text_eq (env.text w.trace (read_link path)) file)) [
        | inl e ↦ rw e refl
        | inr e ↦ rw e refl
      ]

  remove_links-ok :
      (directory : Text) (names : List Text) (w : World)
      → (remove_links env directory file names w).0 ≡ ok tt
  unfolding remove_links remove_if_link perform ◌>>=◌ pure
  remove_links-ok directory [] w = refl
  remove_links-ok directory (name ∷ names) w =
      rw (look_at_link-ok _ _ _) (remove_links-ok directory names _)

Keeps-delete_kerberos_cache :
    (env : Env) (directory volume_id : Text) (start : Trace)
    → let file = kerberos_file_path directory (volume_kerberos_cache_name volume_id) in
      Keeps (λ w. Owns env file start w.trace) (delete_kerberos_cache env directory volume_id)
unfolding delete_kerberos_cache after_directory
Keeps-delete_kerberos_cache env directory volume_id start =
    let file = kerberos_file_path directory (volume_kerberos_cache_name volume_id) in
    Keeps-bind _ _ (Keeps-perform env _ λ w h. call h _ tt) λ o.
      elim o
        as (λ o.
          Keeps (λ w. Owns env file start w.trace) (after_directory env directory volume_id o)) [
            | some _ ↦ Keeps-pure tt
            | none ↦
                Keeps-bind _ _ (Keeps-perform env _ λ w h. call h _ tt)
                  λ f. Keeps-remove_cache env file start directory f
          ]

-- Whether the deletion of a volume's Kerberos cache succeeds or fails, a call of it removes nothing but
-- the file of the volume or a link of which it has just been told that it leads to that file. If the
-- directory and the file are there, it succeeds and the removal of the file is its last call.
pub delete_kerberos_cache-Owns :
    (env : Env) (directory volume_id : Text) (w : World)
    → let file = kerberos_file_path directory (volume_kerberos_cache_name volume_id) in
      Owns env file w.trace (delete_kerberos_cache env directory volume_id w).1.trace
      × (env.error w.trace (stat directory) ≡ none
          → env.error (stat directory ∷ w.trace) (stat file) ≡ none
          → ((delete_kerberos_cache env directory volume_id w).0 ≡ ok tt)
            × ((calls : Trace) × ((delete_kerberos_cache env directory volume_id w).1.trace
                  ≡ remove file ∷ calls)))
delete_kerberos_cache-Owns env directory volume_id w =
    let file = kerberos_file_path directory (volume_kerberos_cache_name volume_id) in
    (
      (Keeps-delete_kerberos_cache env directory volume_id w.trace).after w here,
      λ d f.
          unfold delete_kerberos_cache after_directory remove_cache perform perform_texts ◌>>=◌
            pure in
          rw (d, f, remove_links-ok env file w.trace directory _ _) (refl, (_, refl)),
    )
