-- ===== src/Driver/Drained.antt =====
-- The mounts that are still running can all end.
use csi_driver_smb.Base.{
  ℕ, zero, suc, ◌+◌, ◌≤◌, ◌≡◌, refl, sym, ◌∙◌, ap, subst, ◌⊎◌, false, inl, inr, List, [], ◌∷◌,
  length, arith,
}
use mathlib.Core.List.{Mem, mem-cons_self}
use csi_driver_smb.Text.{Text, codes}
use csi_driver_smb.Text.Search.{text_eq_refl}
use csi_driver_smb.Exec.{finally, ◌>>=◌}
use csi_driver_smb.World.{Env, InFlight, World}
use csi_driver_smb.Locks.{has}
use csi_driver_smb.Config.{Config}
use csi_driver_smb.Node.Mounter.Kept.{Keeps-mount_volume}
use csi_driver_smb.Node.Stage.{without, release_lock, end_in_flight, finish_mount}
use csi_driver_smb.Driver.{Reached, finished}
use csi_driver_smb.Driver.Locking.{locked-in_flight}

length-without : (k : Text) (fs : List InFlight) → length (without k fs) ≤ length fs
unfolding without
length-without k [] = omega arith
length-without k (f ∷ fs) = ground (arith, length-without k fs)

nil_or_cons : {A : Type 0} (xs : List A) → (xs ≡ []) ⊎ ((x : A) × (ys : List A) × (xs ≡ x ∷ ys))
nil_or_cons [] = inl refl
nil_or_cons (x ∷ xs) = inr (x, xs, refl)

none_left : {A : Type 0} (xs : List A) → length xs ≤ 0 → xs ≡ []
none_left [] h = refl
none_left (x ∷ xs) h = ground arith

module _ (env : Env) (cfg : Config) where
  -- so many mounts that were still running end, one after the other
  pub data Ends (w : World) : ℕ → World → Type 0 where
    none_ends : Ends w 0 w
    then_ends :
        {n : ℕ} {t : World}
        → Ends w n t
        → (f : InFlight) → Mem f t.in_flight
        → Ends w (suc n) (finish_mount env cfg f t).1

  in_flight-finish_mount :
      (f : InFlight) (w : World)
      → (finish_mount env cfg f w).1.in_flight ≡ without f.lock_key w.in_flight
  unfolding finish_mount finally release_lock end_in_flight ◌>>=◌
  in_flight-finish_mount f w = ap (without f.lock_key) (
      (Keeps-mount_volume env {P = λ t. t.in_flight ≡ w.in_flight} (λ c t o h. h) cfg.windows
          f.source f.target (codes "cifs") f.options f.sensitive f.volume_id).after
        w refl)

  finish_mount-shorter :
      (f : InFlight) (fs : List InFlight) (w : World)
      → w.in_flight ≡ f ∷ fs
      → length (finish_mount env cfg f w).1.in_flight ≤ length fs
  unfolding without
  finish_mount-shorter f fs w e =
      rw (in_flight-finish_mount f w, e, text_eq_refl f.lock_key) (length-without f.lock_key fs)

  -- after at most so many ends nothing runs
  Drained : ℕ → World → Type 0
  Drained most w =
      (n : ℕ) × (t : World) × (n ≤ most) × Ends w n t × Reached env cfg t × (t.in_flight ≡ [])

  Reached-Drained :
      (left n : ℕ) (w t : World)
      → length t.in_flight ≤ left
      → Ends w n t
      → Reached env cfg t
      → Drained (n + left) w
  unfolding Drained
  Reached-Drained zero n w t short ends r =
      (n, t, omega arith, ends, r, none_left t.in_flight short)
  Reached-Drained (suc left) n w t short ends r = elim (nil_or_cons t.in_flight) [
    | inl e ↦ (n, t, omega arith, ends, r, e)
    | inr (f, fs, e) ↦
        (let running : Mem f t.in_flight = subst (Mem f) (sym e) mem-cons_self in
          let fewer : length fs ≤ left = omega (arith, rw e at short) in
          let shorter = finish_mount-shorter f fs t e in
          let (m, u, few, more, r', none_runs) =
            Reached-Drained left (suc n) w (finish_mount env cfg f t).1
              (omega (arith, fewer, shorter)) (then_ends ends f running) (finished r f running) in
          (m, u, omega (arith, few), more, r', none_runs))
  ]

  -- From each state of a process the mounts that are still running can end, one after the other. After
  -- at most as many ends as there were mounts none is left, and then no key is locked.
  pub drained :
      (w : World)
      → Reached env cfg w
      → (n : ℕ) × (t : World) × (n ≤ length w.in_flight)
        × Ends w n t
        × Reached env cfg t
        × (t.in_flight ≡ [])
        × ((k : Text) → has t.locks k ≡ false)
  unfolding Drained has
  drained w r =
      let (n, t, few, ends, r', e) =
        Reached-Drained (length w.in_flight) 0 w w (omega arith) none_ends r in
      (n, t, omega (arith, few), ends, r', e, λ k. (locked-in_flight env cfg t k r').0 ∙ rw e refl)
