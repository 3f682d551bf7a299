-- ===== src/Node/Stage/Rules.antt =====
-- How the body of NodeStageVolume may end, with a rule for each way to build it.
use csi_driver_smb.Base.{
  ◌≡◌, refl, Bool, true, false, not, ◌&&◌, Option, none, some, List, [], ◌∷◌, if◌then◌else◌,
  is_empty, arith, Bool-cases, inl, inr,
}
use csi_driver_smb.Text.{Text}
use csi_driver_smb.Result.{Result, ok, err}
use csi_driver_smb.Exec.{continue, ◌>>=◌}
use csi_driver_smb.Exec.Fails.{Allowed, Fails, Fails-wrap, fails_rules}
use csi_driver_smb.Exec.Keeps.{Keeps, keeps_rules}
use csi_driver_smb.World.{
  Call, note, Wait, done, timed_out, deadline, canceled, Env, InFlight, World, Run,
}
use csi_driver_smb.Config.{Config}
use csi_driver_smb.Invariant.{is_ordinary, Borne, call_rules, Fails-perform, Fails-perform_wait}
use csi_driver_smb.Node.Mounter.Kept.{Keeps-mount_volume}
use csi_driver_smb.Node.Stage.{StageFailure, start_in_flight, after_wait}

-- the error lets the lock go
abbrev pub LetsGo : StageFailure → Type 0
LetsGo f = f.keep_lock_held ≡ false

pub ruleset lets_go_rules = (fails_rules, Fails-perform, Fails-perform_wait, refl)

module _ (env : Env) (cfg : Config) {P : List Text → World → Type 0} (borne : Borne cfg P) where
  pub bears_call :
      (held : List Text) (c : Call) (w : World)
      → is_ordinary c ≡ true
      → P held w
      → P held (note c w)
  bears_call held c w o h = borne.ordinary held c w o h

  -- How the body of NodeStageVolume ends: with the lock still its own, or handed over to the mount.
  abbrev pub Ends : Text → List Text → Bool → World → Type 0
  Ends k held true w = P held w
  Ends k held false w = P (k ∷ held) w

  abbrev pub Outcome : Text → List Text → Result StageFailure (Unit {0}) → World → Type 0
  Outcome k held (ok _) w = P (k ∷ held) w
  Outcome k held (err f) w = Ends k held f.keep_lock_held w

  pub record Staged (k : Text) (held : List Text) (m : Run StageFailure (Unit {0})) : Type 0 where
    pub after : (w : World) → P (k ∷ held) w → Outcome k held (m w).0 (m w).1

  Outcome-LetsGo :
      (k : Text) (held : List Text) (r : Result StageFailure (Unit {0})) (w : World)
      → Allowed LetsGo r
      → P (k ∷ held) w
      → Outcome k held r w
  Outcome-LetsGo k held (ok _) w g h = h
  Outcome-LetsGo k held (err f) w g h = rw g h

  pub Staged-plain :
      (k : Text) (held : List Text) (m : Run StageFailure (Unit {0}))
      → Fails LetsGo m
      → Keeps (P (k ∷ held)) m
      → Staged k held m
  Staged-plain k held m g km = record {
    after = λ w h. Outcome-LetsGo k held (m w).0 (m w).1 (g.result w) (km.after w h);
  }

  pub Staged-if :
      (k : Text) (held : List Text) (b : Bool) (m n : Run StageFailure (Unit {0}))
      → Staged k held m
      → Staged k held n
      → Staged k held (if b then m else n)
  Staged-if k held true m n hm hn = hm
  Staged-if k held false m n hm hn = hn

  Outcome-continue :
      {A : Type 0} (k : Text) (held : List Text) (f : A → Run StageFailure (Unit {0}))
      (r : Result StageFailure A) (w : World)
      → Allowed LetsGo r
      → P (k ∷ held) w
      → ((a : A) → Staged k held (f a))
      → Outcome k held (continue r f w).0 (continue r f w).1
  Outcome-continue k held f (ok a) w g h hf = (hf a).after w h
  Outcome-continue k held f (err e) w g h hf = rw g h

  pub Staged-bind :
      {A : Type 0} (k : Text) (held : List Text) (m : Run StageFailure A)
      (f : A → Run StageFailure (Unit {0}))
      → Fails LetsGo m
      → Keeps (P (k ∷ held)) m
      → ((a : A) → Staged k held (f a))
      → Staged k held (m >>= f)
  unfolding ◌>>=◌
  Staged-bind k held m f g km hf = record {
    after = λ w h. Outcome-continue k held f (m w).0 (m w).1 (g.result w) (km.after w h) hf;
  }

  pub Staged-after_wait :
      (f : InFlight) (held : List Text) (s : Wait) → Staged f.lock_key held (after_wait env cfg f s)
  unfolding after_wait
  Staged-after_wait f held done =
      Staged-plain f.lock_key held _ (Fails-wrap _ _ λ _. refl)
        (search (keeps_rules, Keeps-mount_volume, bears_call))
  Staged-after_wait f held timed_out = record {
    after = λ w h. unfold start_in_flight ◌>>=◌ in borne.handed_over held f w h;
  }
  Staged-after_wait f held deadline = record {
    after = λ w h. unfold start_in_flight ◌>>=◌ in borne.handed_over held f w h;
  }
  Staged-after_wait f held canceled = record {
    after = λ w h. unfold start_in_flight ◌>>=◌ in borne.handed_over held f w h;
  }
