-- ===== src/Exec/Keeps.antt =====
-- Invariants of actions, with a rule for each way to build one.
use csi_driver_smb.Base.{◌≡◌, refl, Bool, true, false, Option, none, some, if◌then◌else◌}
use csi_driver_smb.Result.{Result, ok, err}
use csi_driver_smb.Exec.{
  Exec, pure, raise, lift, continue, ◌>>=◌, wrap, attempt, finally, check, check_none,
}

-- From a state with `P` the action reaches a state with `P`, whether it returns or fails.
pub record Keeps {ℓ} {S E A : Type ℓ} (P : S → Type ℓ) (m : Exec S E A) : Type ℓ where
  pub after : (s : S) → P s → P (m s).1

-- an action that leaves the state alone
abbrev Still {ℓ} : {S E A : Type ℓ} → Exec S E A → Type ℓ
Still {S} m = (s : S) → (m s).1 ≡ s

module _ {ℓ} {S E A : Type ℓ} {P : S → Type ℓ} where
  Keeps-Still : (m : Exec S E A) → Still m → Keeps P m
  Keeps-Still m still = record { after = λ s h. rw (still s) h }

  pub Keeps-pure : (a : A) → Keeps P (pure {E = E} a)
  unfolding pure
  Keeps-pure a = Keeps-Still (pure a) λ s. refl

  pub Keeps-raise : (e : E) → Keeps P (raise {A = A} e)
  unfolding raise
  Keeps-raise e = Keeps-Still (raise e) λ s. refl

  pub Keeps-lift : (r : Result E A) → Keeps P (lift r)
  unfolding lift
  Keeps-lift r = Keeps-Still (lift r) λ s. refl

  pub Keeps-if :
      (b : Bool) (m n : Exec S E A) → Keeps P m → Keeps P n → Keeps P (if b then m else n)
  Keeps-if true m n km kn = km
  Keeps-if false m n km kn = kn

module _ {ℓ} {S E A B : Type ℓ} {P : S → Type ℓ} where
  Keeps-continue :
      (f : A → Exec S E B) (r : Result E A) (s : S)
      → ((a : A) → Keeps P (f a))
      → P s
      → P (continue r f s).1
  Keeps-continue f (ok a) s kf h = (kf a).after s h
  Keeps-continue f (err e) s kf h = h

  pub Keeps-bind :
      (m : Exec S E A) (f : A → Exec S E B)
      → Keeps P m
      → ((a : A) → Keeps P (f a))
      → Keeps P (m >>= f)
  unfolding ◌>>=◌
  Keeps-bind m f km kf = record {
    after = λ s h. Keeps-continue f (m s).0 (m s).1 kf (km.after s h);
  }

  -- what follows a pure result may use that this is the result
  pub Keeps-bind_lift :
      (r : Result E A) (f : A → Exec S E B)
      → ((a : A) → r ≡ ok a → Keeps P (f a))
      → Keeps P (lift r >>= f)
  unfolding ◌>>=◌
  Keeps-bind_lift (ok a) f kf = record { after = λ s h. (kf a refl).after s h }
  Keeps-bind_lift (err e) f kf = record { after = λ s h. h }

  pub Keeps-finally :
      (m : Exec S E A) (c : Exec S E B) → Keeps P m → Keeps P c → Keeps P (finally m c)
  unfolding finally
  Keeps-finally m c km kc = record { after = λ s h. kc.after (m s).1 (km.after s h) }

module _ {ℓ} {S E F A : Type ℓ} {P : S → Type ℓ} where
  pub Keeps-wrap : (f : E → F) (m : Exec S E A) → Keeps P m → Keeps P (wrap f m)
  unfolding wrap
  Keeps-wrap f m km = record { after = λ s h. km.after s h }

  pub Keeps-attempt : (m : Exec S E A) → Keeps P m → Keeps P (attempt {F = F} m)
  unfolding attempt
  Keeps-attempt m km = record { after = λ s h. km.after s h }

module _ {ℓ} {S E : Type ℓ} {P : S → Type ℓ} where
  pub Keeps-check : (b : Bool) (e : E) → Keeps P (check {S = S} b e)
  unfolding check
  Keeps-check b e = Keeps-if b _ _ (Keeps-pure tt) (Keeps-raise e)

  pub Keeps-check_none {κ} : {X : Type κ} (o : Option X) (e : E) → Keeps P (check_none {S = S} o e)
  unfolding check_none
  Keeps-check_none none e = Keeps-pure tt
  Keeps-check_none (some x) e = Keeps-raise e

pub ruleset keeps_rules = (
  Keeps-pure, Keeps-raise, Keeps-lift, Keeps-if, Keeps-bind, Keeps-finally, Keeps-wrap,
  Keeps-attempt, Keeps-check, Keeps-check_none,
)
