-- ===== src/Controller/Effects.antt =====
-- Calls that a controller operation makes and that succeed.
use csi_driver_smb.Base.{◌≡◌, ap, subst, inl, inr, Option-cases, none, [], ◌∷◌}
use csi_driver_smb.Result.{Status}
use csi_driver_smb.Exec.{pure, raise, check_none, ◌>>=◌, ◌>>◌}
use csi_driver_smb.Exec.Ensures.{Ensures, Ensures-Keeps}
use csi_driver_smb.Exec.Keeps.{Keeps}
use csi_driver_smb.World.{Call, Trace, Env, World, Run, perform, note}
use csi_driver_smb.Config.{Config}
use csi_driver_smb.Invariant.{
  Closed, Closed-trace, Extends, Extends-grows, Happened, Happened-grows,
}

-- the call succeeds when it is made
abbrev pub Succeeds : Env → Call → Trace → Type 0
Succeeds env c tr = env.error tr c ≡ none

abbrev pub Started : Trace → World → Type 0
Started start w = Extends start w.trace

abbrev pub Made : Env → Trace → Call → World → Type 0
Made env start c w = Happened (Succeeds env c) c start w.trace

-- a call whose error ends the action, and what comes after it
pub Ensures-call_then :
    {A : Type 0} (env : Env) (start : Trace) (c : Call) (s : Status) (m : Run Status A)
    → Keeps (Made env start c) m
    → Ensures (Started start) (Made env start c) (do e ← perform env c; check_none e s; m)
unfolding perform check_none ◌>>=◌ pure raise
Ensures-call_then env start c s m km = record {
  after = λ w (mid, e). elim (Option-cases (env.error w.trace c)) [
    | inl h ↦ rw h ((Ensures-Keeps m km).after (note c w) ([], mid, ap (λ t. c ∷ t) e, rw e at h))
    | inr (x, h) ↦ rw h tt
  ];
}

-- the same, in a state that `T` holds of
pub Ensures-call_after :
    {A : Type 0} (env : Env) (start : Trace) (c : Call) (s : Status) (m : Run Status A)
    (T : Trace → Type 0)
    → ((tr : Trace) → T tr → Extends start tr)
    → Keeps (λ w. Happened (λ tr. Succeeds env c tr × T tr) c start w.trace) m
    → Ensures
        (λ w. T w.trace)
        (λ w. Happened (λ tr. Succeeds env c tr × T tr) c start w.trace)
        (do e ← perform env c; check_none e s; m)
unfolding perform check_none ◌>>=◌ pure raise
Ensures-call_after env start c s m T extends km = record {
  after = λ w t.
      let (mid, e) = extends w.trace t in
      elim (Option-cases (env.error w.trace c)) [
        | inl h ↦ rw h (
            (Ensures-Keeps m km).after (note c w)
              ([], mid, ap (λ tr. c ∷ tr) e, (rw e at h, subst T e t)))
        | inr (x, h) ↦ rw h tt
      ];
}

-- a call whose error ends the action
pub Ensures-call :
    (env : Env) (start : Trace) (c : Call) (s : Status)
    → Ensures (Started start) (Made env start c) (do e ← perform env c; check_none e s)
unfolding perform check_none ◌>>=◌ pure raise
Ensures-call env start c s = record {
  after = λ w (mid, e). elim (Option-cases (env.error w.trace c)) [
    | inl h ↦ rw h ([], mid, ap (λ t. c ∷ t) e, rw e at h)
    | inr (x, h) ↦ rw h tt
  ];
}

pub Closed-Started : (cfg : Config) (start : Trace) → Closed cfg (λ held w. Started start w)
Closed-Started cfg start = Closed-trace cfg (Extends start) (Extends-grows start)

pub Closed-Made :
    (env : Env) (cfg : Config) (start : Trace) (c : Call)
    → Closed cfg (λ held w. Made env start c w)
Closed-Made env cfg start c =
    Closed-trace cfg (Happened (Succeeds env c) c start) (Happened-grows (Succeeds env c) c start)
