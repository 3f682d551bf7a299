-- ===== src/Exec/Fails.antt =====
-- What the errors of actions have in common.
use csi_driver_smb.Base.{◌≡◌, refl, Bool, true, false, Option, none, some, if◌then◌else◌}
use csi_driver_smb.Result.{Result, ok, err}
use csi_driver_smb.Exec.{Exec, pure, raise, continue, ◌>>=◌, wrap, finally, check, check_none}

-- a value satisfies everything
abbrev pub Allowed {ℓ} : {E A : Type ℓ} → (E → Type ℓ) → Result E A → Type ℓ
Allowed Q (ok a) = Unit
Allowed Q (err e) = Q e

pub record Fails {ℓ} {S E A : Type ℓ} (Q : E → Type ℓ) (m : Exec S E A) : Type ℓ where
  pub result : (s : S) → Allowed Q (m s).0

Allowed-err {ℓ} :
    {E A : Type ℓ} (Q : E → Type ℓ) (r : Result E A) (e : E) → r ≡ err e → Allowed Q r → Q e
Allowed-err Q r e h q = rw h at q

module _ {ℓ} {S E A : Type ℓ} {Q : E → Type ℓ} where
  pub Fails-pure : (a : A) → Fails {S = S} Q (pure a)
  unfolding pure
  Fails-pure a = record { result = λ s. tt }

  pub Fails-raise : (e : E) → Q e → Fails {S = S} {A = A} Q (raise e)
  unfolding raise
  Fails-raise e h = record { result = λ s. h }

  pub Fails-if :
      (b : Bool) (m n : Exec S E A) → Fails Q m → Fails Q n → Fails Q (if b then m else n)
  Fails-if true m n hm hn = hm
  Fails-if false m n hm hn = hn

  pub Fails-finally :
      {B : Type ℓ} (m : Exec S E A) (c : Exec S E B) → Fails Q m → Fails Q (finally m c)
  unfolding finally
  Fails-finally m c hm = record { result = λ s. hm.result s }

  -- the error that came up
  pub Fails-error : (m : Exec S E A) (s : S) (e : E) → Fails Q m → (m s).0 ≡ err e → Q e
  Fails-error m s e hm h = Allowed-err Q (m s).0 e h (hm.result s)

module _ {ℓ} {S E A B : Type ℓ} {Q : E → Type ℓ} where
  Allowed-continue :
      (f : A → Exec S E B) (r : Result E A) (s : S)
      → Allowed Q r
      → ((a : A) → Fails Q (f a))
      → Allowed Q (continue r f s).0
  Allowed-continue f (ok a) s h hf = (hf a).result s
  Allowed-continue f (err e) s h hf = h

  pub Fails-bind :
      (m : Exec S E A) (f : A → Exec S E B)
      → Fails Q m
      → ((a : A) → Fails Q (f a))
      → Fails Q (m >>= f)
  unfolding ◌>>=◌
  Fails-bind m f hm hf = record {
    result = λ s. Allowed-continue f (m s).0 (m s).1 (hm.result s) hf;
  }

Allowed-wrap {ℓ} :
    {S E F A : Type ℓ} (Q : F → Type ℓ) (g : E → F) (m : Exec S E A) (s : S)
    → ((e : E) → Q (g e))
    → Allowed Q (wrap g m s).0
unfolding wrap
Allowed-wrap Q g m s h =
    elim (m s).0 as (λ r. (m s).0 ≡ r → Allowed Q (wrap g m s).0) [
      | ok a ↦ λ e. rw e tt
      | err x ↦ λ e. rw e (h x)
    ]
      refl

module _ {ℓ} {S E F A : Type ℓ} {Q : F → Type ℓ} where
  pub Fails-wrap : (g : E → F) (m : Exec S E A) → ((e : E) → Q (g e)) → Fails Q (wrap g m)
  Fails-wrap g m h = record { result = λ s. Allowed-wrap Q g m s h }

module _ {ℓ} {S E : Type ℓ} {Q : E → Type ℓ} where
  pub Fails-check : (b : Bool) (e : E) → Q e → Fails {S = S} Q (check b e)
  unfolding check
  Fails-check b e h = Fails-if b _ _ (Fails-pure tt) (Fails-raise e h)

  pub Fails-check_none {κ} :
      {X : Type κ} (o : Option X) (e : E) → Q e → Fails {S = S} Q (check_none o e)
  unfolding check_none
  Fails-check_none none e h = Fails-pure tt
  Fails-check_none (some x) e h = Fails-raise e h

pub ruleset fails_rules = (
  Fails-pure, Fails-raise, Fails-if, Fails-finally, Fails-bind, Fails-wrap, Fails-check,
  Fails-check_none,
)
