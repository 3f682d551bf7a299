-- ===== src/Invariant.antt =====
-- What it takes for a property of the driver's state to be an invariant of its handlers, and the
-- invariant that each file's functions keep.
use csi_driver_smb.Base.{◌≡◌, ap, Bool, true, false, Option, none, some, List, ◌∷◌, ◌++◌}
use csi_driver_smb.Text.{Text}
use csi_driver_smb.Exec.Keeps.{Keeps}
use csi_driver_smb.Exec.Fails.{Fails}
use csi_driver_smb.Kerberos.{kerberos_file_path}
use csi_driver_smb.Locks.{has, release}
use csi_driver_smb.World.{
  OsError, Call, remove_all, rename, smb_unmount, Trace, Env, InFlight, World, note, perform,
  perform_flag, perform_text, perform_texts, perform_dict, perform_wait, check_os,
}
use csi_driver_smb.Config.{Config}

-- calls that move or remove no tree and unmount no share
abbrev pub is_ordinary : Call → Bool
is_ordinary (remove_all _) = false
is_ordinary (rename _ _) = false
is_ordinary (smb_unmount _ _) = false
is_ordinary _ = true

-- `P held` is a property of the state while the keys of `held` are locked by handlers that run. It
-- bears the calls that the node service makes, and that a lock is handed over to a mount.
pub record Borne (cfg : Config) (P : List Text → World → Type 0) : Type 0 where
  pub ordinary :
      (held : List Text) (c : Call) (w : World)
      → is_ordinary c ≡ true
      → P held w
      → P held (note c w)
  pub link_removed :
      (held : List Text) (name : Text) (w : World)
      → P held w
      → P held (note (remove_all (kerberos_file_path cfg.krb5_cache_directory name)) w)
  pub link_renamed :
      (held : List Text) (from name : Text) (w : World)
      → P held w
      → P held (note (rename from (kerberos_file_path cfg.krb5_cache_directory name)) w)
  pub handed_over :
      (held : List Text) (f : InFlight) (w : World)
      → P (f.lock_key ∷ held) w
      → P held (record w { in_flight = f ∷ w.in_flight })

-- It bears the taking and the release of a lock too.
pub record Guarded (cfg : Config) (P : List Text → World → Type 0) : Type 0 where
  pub borne : Borne cfg P
  pub acquired :
      (held : List Text) (k : Text) (w : World)
      → has w.locks k ≡ false
      → P held w
      → P (k ∷ held) (record w { locks = k ∷ w.locks })
  pub released :
      (held : List Text) (k : Text) (w : World)
      → P (k ∷ held) w
      → P held (record w { locks = release w.locks k })

-- It bears that the share of a volume is unmounted.
abbrev pub Unmounts : (List Text → World → Type 0) → Text → Type 0
Unmounts P volume_id =
    (held : List Text) (target : Text) (w : World)
    → P held w
    → P held (note (smb_unmount target volume_id) w)

-- It bears all that the handlers do but the calls that `Bears` of Controller/Delete is about.
pub record Closed (cfg : Config) (P : List Text → World → Type 0) : Type 0 where
  pub guarded : Guarded cfg P
  pub unmounted : (volume_id : Text) → Unmounts P volume_id

-- A call keeps a property that bears it.
module _ (env : Env) {P : World → Type 0} {E : Type 0} (c : Call)
    (bears : (w : World) → P w → P (note c w)) where
  pub Keeps-perform : Keeps P (perform env {E = E} c)
  unfolding perform
  Keeps-perform = record { after = bears }

  pub Keeps-perform_flag : Keeps P (perform_flag env {E = E} c)
  unfolding perform_flag
  Keeps-perform_flag = record { after = bears }

  pub Keeps-perform_text : Keeps P (perform_text env {E = E} c)
  unfolding perform_text
  Keeps-perform_text = record { after = bears }

  pub Keeps-perform_texts : Keeps P (perform_texts env {E = E} c)
  unfolding perform_texts
  Keeps-perform_texts = record { after = bears }

  pub Keeps-perform_dict : Keeps P (perform_dict env {E = E} c)
  unfolding perform_dict
  Keeps-perform_dict = record { after = bears }

  pub Keeps-perform_wait : Keeps P (perform_wait env {E = E} c)
  unfolding perform_wait
  Keeps-perform_wait = record { after = bears }

pub Keeps-check_os : {P : World → Type 0} (o : Option OsError) → Keeps P (check_os o)
unfolding check_os
Keeps-check_os none = record { after = λ w h. h }
Keeps-check_os (some e) = record { after = λ w h. h }

pub ruleset call_rules = (
  Keeps-perform, Keeps-perform_flag, Keeps-perform_text, Keeps-perform_texts, Keeps-perform_dict,
  Keeps-perform_wait, Keeps-check_os,
)

-- A call is no error.
module _ (env : Env) {E : Type 0} {Q : E → Type 0} (c : Call) where
  pub Fails-perform : Fails Q (perform env c)
  unfolding perform
  Fails-perform = record { result = λ w. tt }

  pub Fails-perform_wait : Fails Q (perform_wait env c)
  unfolding perform_wait
  Fails-perform_wait = record { result = λ w. tt }

-- What every call keeps of the trace is an invariant.
pub Closed-trace :
    (cfg : Config) (T : Trace → Type 0)
    → ((c : Call) (tr : Trace) → T tr → T (c ∷ tr))
    → Closed cfg (λ held w. T w.trace)
Closed-trace cfg T grows = record {
  guarded = record {
    borne = record {
      ordinary = λ held c w o h. grows c w.trace h;
      link_removed = λ held name w h. grows _ w.trace h;
      link_renamed = λ held from name w h. grows _ w.trace h;
      handed_over = λ held f w h. h;
    };
    acquired = λ held k w free h. h;
    released = λ held k w h. h;
  };
  unmounted = λ volume_id held target w h. grows _ w.trace h;
}

-- `tr` goes on from `start`.
abbrev pub Extends : Trace → Trace → Type 0
Extends start tr = (mid : Trace) × (tr ≡ mid ++ start)

-- Behind `start` the call was made, and at a time when `R` held.
abbrev pub Happened : (Trace → Type 0) → Call → Trace → Trace → Type 0
Happened R c start tr =
    (later : Trace) × (mid : Trace) × (tr ≡ later ++ c ∷ (mid ++ start)) × R (mid ++ start)

pub Extends-grows :
    (start : Trace) (c : Call) (tr : Trace) → Extends start tr → Extends start (c ∷ tr)
Extends-grows start c tr (mid, e) = (c ∷ mid, ap (λ t. c ∷ t) e)

pub Happened-grows :
    (R : Trace → Type 0) (d : Call) (start : Trace) (c : Call) (tr : Trace)
    → Happened R d start tr
    → Happened R d start (c ∷ tr)
Happened-grows R d start c tr (later, mid, e, r) = (c ∷ later, mid, ap (λ t. c ∷ t) e, r)
