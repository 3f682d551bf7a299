-- ===== src/Node/Mounter/Ready.antt =====
-- What a successful ensureMountPoint has seen or made.
use csi_driver_smb.Base.{
  ◌≡◌, ◌⊎◌, refl, sym, ◌∙◌, ap, inl, inr, Bool, true, false, Option, none, some, [], ◌∷◌, ◌++◌, All,
}
use csi_driver_smb.Text.{Text}
use csi_driver_smb.Result.{ok}
use csi_driver_smb.Result.Laws.{ok-injective}
use csi_driver_smb.Exec.{pure, raise, ◌>>=◌}
use csi_driver_smb.Exec.Keeps.{Keeps, keeps_rules}
use csi_driver_smb.Exec.Runs.{bind-ok, bind_known}
use csi_driver_smb.World.{
  OsError, not_exist, exist, corrupted, end_of_file, other, Call, is_likely_not_mount_point,
  list_mounts, abs_path, path_exists, open_dir, read_dir_first, mkdir_all, Trace, Env, World, note,
  perform, perform_flag, check_os,
}
use csi_driver_smb.Invariant.{call_rules}
use csi_driver_smb.Node.Mounter.{
  is_corrupted_dir, not_mount_point, not_listed, read_error, read_after_open, unmount_invalid,
  created, make_dir, mounted_or_made, ensure_mount_point,
}

-- calls that only look for a mount point
abbrev pub is_look : Call → Bool
is_look (is_likely_not_mount_point _) = true
is_look (path_exists _) = true
is_look list_mounts = true
is_look (abs_path _) = true
is_look _ = false

-- Since `start` there were such calls only.
abbrev pub Looked : Trace → Trace → Type 0
Looked start tr = (since : Trace) × (tr ≡ since ++ start) × All (λ c. is_look c ≡ true) since

Looked-grows :
    (start : Trace) (c : Call) (w : World)
    → is_look c ≡ true
    → Looked start w.trace
    → Looked start (note c w).trace
Looked-grows start c w h (since, e, all) = (c ∷ since, ap (λ t. c ∷ t) e, (h, all))

module _ (env : Env) (target : Text) where
  -- The target was a mount point that can be read: the last two calls opened it and read its first
  -- entry, if it has one.
  pub record Read (start tr : Trace) : Type 0 where
    pub before : Trace
    pub looked : Looked start before
    pub opened : env.error before (open_dir target) ≡ none
    pub read :
        (env.error (open_dir target ∷ before) (read_dir_first target) ≡ none)
        ⊎ (env.error (open_dir target ∷ before) (read_dir_first target) ≡ some end_of_file)
    pub last : tr ≡ read_dir_first target ∷ open_dir target ∷ before

  -- The target was made by the last call, or was there already.
  pub record Created (start tr : Trace) : Type 0 where
    pub before : Trace
    pub looked : Looked start before
    pub made :
        (env.error before (mkdir_all target) ≡ none)
        ⊎ (env.error before (mkdir_all target) ≡ some exist)
    pub last : tr ≡ mkdir_all target ∷ before

  read_error-none :
      (o : Option OsError) → read_error env o ≡ none → (o ≡ none) ⊎ (o ≡ some end_of_file)
  unfolding read_error
  read_error-none none h = inl refl
  read_error-none (some end_of_file) h = inr refl
  read_error-none (some not_exist) h = cc
  read_error-none (some exist) h = cc
  read_error-none (some corrupted) h = cc
  read_error-none (some other) h = cc

  created-none : (o : Option OsError) → created env o ≡ none → (o ≡ none) ⊎ (o ≡ some exist)
  unfolding created
  created-none none h = inl refl
  created-none (some exist) h = inr refl
  created-none (some not_exist) h = cc
  created-none (some end_of_file) h = cc
  created-none (some corrupted) h = cc
  created-none (some other) h = cc

  check_os-none :
      (o : Option OsError) (w : World) (x : Unit {0}) → (check_os o w).0 ≡ ok x → o ≡ none
  unfolding check_os raise
  check_os-none none w x h = refl
  check_os-none (some _) w x h = cc

  check_os-same : (o : Option OsError) (w : World) → (check_os o w).1 ≡ w
  unfolding check_os raise pure
  check_os-same none w = refl
  check_os-same (some _) w = refl

  -- an error that was seen is raised, whether the unmount succeeds or not
  unmount_invalid-ok :
      (e : Option OsError) (w w' : World) (b : Bool)
      → unmount_invalid env target e w ≡ (ok b, w')
      → (e ≡ none) × (b ≡ true) × (w' ≡ w)
  unfolding unmount_invalid pure raise
  unmount_invalid-ok none w w' b h =
      (refl, sym (ok-injective (ap (λ y. y.0) h)), sym (ap (λ y. y.1) h))
  unmount_invalid-ok (some e) w w' b h =
      let (u, _, h₁) = bind-ok _ _ w w' b h in
      let (_, _, h₂) = bind-ok _ _ _ w' b h₁ in let i = ap (λ y. y.0) h₂ in cc

  make_dir-ok :
      (w : World) (x : Unit {0})
      → (make_dir env target w).0 ≡ ok x
      → ((env.error w.trace (mkdir_all target) ≡ none)
          ⊎ (env.error w.trace (mkdir_all target) ≡ some exist))
        × ((make_dir env target w).1 ≡ note (mkdir_all target) w)
  unfolding make_dir perform ◌>>=◌
  make_dir-ok w x h =
      let e = created env (env.error w.trace (mkdir_all target)) in
      (created-none _ (check_os-none e _ x h), check_os-same e (note (mkdir_all target) w))

  read_after_open-ok :
      (o : Option OsError) (w w' : World) (b : Bool)
      → (read_after_open env target o >>= unmount_invalid env target) w ≡ (ok b, w')
      → (o ≡ none)
        × ((env.error w.trace (read_dir_first target) ≡ none)
            ⊎ (env.error w.trace (read_dir_first target) ≡ some end_of_file))
        × (b ≡ true)
        × (w' ≡ note (read_dir_first target) w)
  unfolding read_after_open perform pure ◌>>=◌
  read_after_open-ok none w w' b h =
      let (e, done, same) = unmount_invalid-ok _ (note (read_dir_first target) w) w' b h in
      (refl, read_error-none _ e, done, same)
  read_after_open-ok (some e) w w' b h = let (i, _, _) = unmount_invalid-ok (some e) w w' b h in cc

  mounted_or_made-cases :
      (start : Trace) (not_mnt : Bool) (w w' : World) (b : Bool)
      → Looked start w.trace
      → mounted_or_made env target not_mnt w ≡ (ok b, w')
      → ((b ≡ true) × Read start w'.trace) ⊎ ((b ≡ false) × Created start w'.trace)
  unfolding mounted_or_made perform pure
  mounted_or_made-cases start true w w' b l h =
      let (x, i, h₁) = bind-ok (make_dir env target) _ w w' b h in
      let (made, last) = make_dir-ok w x i in
      inr (
        sym (ok-injective (ap (λ y. y.0) h₁)),
        record {
          before = w.trace;
          looked = l;
          made = made;
          last = sym (ap (λ y. y.1.trace) h₁) ∙ ap (λ v. v.trace) last;
        },
      )
  mounted_or_made-cases start false w w' b l h =
      let w₁ = note (open_dir target) w in
      let h₁ =
        bind_known (perform env (open_dir target)) _ w w' w₁ (env.error w.trace (open_dir target)) b
          refl h in
      let (opened, read, done, last) = read_after_open-ok _ w₁ w' b h₁ in
      inl (
        done,
        record {
          before = w.trace;
          looked = l;
          opened = opened;
          read = read;
          last = ap (λ v. v.trace) last;
        },
      )

  module _ {P : World → Type 0}
      (bears : (c : Call) (w : World) → is_look c ≡ true → P w → P (note c w)) where
    Looks-is_corrupted_dir : Keeps P (is_corrupted_dir env target)
    unfolding is_corrupted_dir
    Looks-is_corrupted_dir = search (keeps_rules, call_rules)

    Looks-not_mount_point : (l : Option OsError × Bool) → Keeps P (not_mount_point env target l)
    unfolding not_mount_point
    Looks-not_mount_point (none, b) = search keeps_rules
    Looks-not_mount_point (some not_exist, b) = search keeps_rules
    Looks-not_mount_point (some exist, b) = search (keeps_rules, Looks-is_corrupted_dir)
    Looks-not_mount_point (some corrupted, b) = search (keeps_rules, Looks-is_corrupted_dir)
    Looks-not_mount_point (some end_of_file, b) = search (keeps_rules, Looks-is_corrupted_dir)
    Looks-not_mount_point (some other, b) = search (keeps_rules, Looks-is_corrupted_dir)

    Looks-not_listed : (windows b : Bool) → Keeps P (not_listed env windows target b)
    unfolding not_listed
    Looks-not_listed true b = search keeps_rules
    Looks-not_listed false b = search (keeps_rules, call_rules)

  pub ensure_mount_point-Read :
      (windows : Bool) (w w' : World) (b : Bool)
      → ensure_mount_point env windows target w ≡ (ok b, w')
      → ((b ≡ true) × Read w.trace w'.trace) ⊎ ((b ≡ false) × Created w.trace w'.trace)
  unfolding ensure_mount_point perform_flag
  ensure_mount_point-Read windows w w' b h =
      let looks = Looked-grows w.trace in
      let w₁ = note (is_likely_not_mount_point target) w in
      let l₁ = looks (is_likely_not_mount_point target) w refl ([], refl, tt) in
      let (likely, _, h₁) =
        bind-ok (perform_flag env (is_likely_not_mount_point target)) _ w w' b h in
      let (m, _, h₂) = bind-ok (not_mount_point env target likely) _ w₁ w' b h₁ in
      let l₂ = (Looks-not_mount_point looks likely).after w₁ l₁ in
      let w₂ = (not_mount_point env target likely w₁).1 in
      let (m', _, h₃) = bind-ok (not_listed env windows target m) _ w₂ w' b h₂ in
      let l₃ = (Looks-not_listed looks windows m).after w₂ l₂ in
      mounted_or_made-cases w.trace m' (not_listed env windows target m w₂).1 w' b l₃ h₃
