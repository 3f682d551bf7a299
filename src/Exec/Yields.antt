-- ===== src/Exec/Yields.antt =====
-- What the values that actions return have in common.
use csi_driver_smb.Base.{◌≡◌, refl, Bool, true, false, if◌then◌else◌}
use csi_driver_smb.Result.{Result, ok, err}
use csi_driver_smb.Exec.{Exec, pure, raise, lift, continue, ◌>>=◌, wrap, finally}

-- an error satisfies everything
abbrev pub Satisfied {ℓ} : {E A : Type ℓ} → (A → Type ℓ) → Result E A → Type ℓ
Satisfied Q (ok a) = Q a
Satisfied Q (err e) = Unit

Satisfied-ok {ℓ} :
    {E A : Type ℓ} (Q : A → Type ℓ) (r : Result E A) (a : A) → r ≡ ok a → Satisfied Q r → Q a
Satisfied-ok Q r a e h = rw e at h

pub record Yields {ℓ} {S E A : Type ℓ} (Q : A → Type ℓ) (m : Exec S E A) : Type ℓ where
  pub result : (s : S) → Satisfied Q (m s).0

module _ {ℓ} {S E A : Type ℓ} {Q : A → Type ℓ} where
  pub Yields-pure : (a : A) → Q a → Yields Q (pure {S = S} {E = E} a)
  unfolding pure
  Yields-pure a h = record { result = λ s. h }

  pub Yields-raise : (e : E) → Yields {S = S} Q (raise e)
  unfolding raise
  Yields-raise e = record { result = λ s. tt }

  pub Yields-if :
      (b : Bool) (m n : Exec S E A) → Yields Q m → Yields Q n → Yields Q (if b then m else n)
  Yields-if true m n hm hn = hm
  Yields-if false m n hm hn = hn

  pub Yields-finally :
      {B : Type ℓ} (m : Exec S E A) (c : Exec S E B) → Yields Q m → Yields Q (finally m c)
  unfolding finally
  Yields-finally m c hm = record { result = λ s. hm.result s }

  -- the value that was returned
  pub Yields-value : (m : Exec S E A) (s : S) (a : A) → Yields Q m → (m s).0 ≡ ok a → Q a
  Yields-value m s a hm e = Satisfied-ok Q (m s).0 a e (hm.result s)

module _ {ℓ} {S E A B : Type ℓ} {Q : B → Type ℓ} where
  Satisfied-continue :
      (f : A → Exec S E B) (r : Result E A) (s : S)
      → ((a : A) → Yields Q (f a))
      → Satisfied Q (continue r f s).0
  Satisfied-continue f (ok a) s hf = (hf a).result s
  Satisfied-continue f (err e) s hf = tt

  pub Yields-bind :
      (m : Exec S E A) (f : A → Exec S E B) → ((a : A) → Yields Q (f a)) → Yields Q (m >>= f)
  unfolding ◌>>=◌
  Yields-bind m f hf = record { result = λ s. Satisfied-continue f (m s).0 (m s).1 hf }

module _ {ℓ} {S E F A B : Type ℓ} {Q : B → Type ℓ} where
  -- what follows a pure result may use that this is the result
  pub Yields-bind_wrap :
      (g : E → F) (r : Result E A) (f : A → Exec S F B)
      → ((a : A) → r ≡ ok a → Yields Q (f a))
      → Yields Q (wrap g (lift r) >>= f)
  unfolding ◌>>=◌ wrap lift
  Yields-bind_wrap g (ok a) f hf = record { result = λ s. (hf a refl).result s }
  Yields-bind_wrap g (err e) f hf = record { result = λ s. tt }

Satisfied-weaken {ℓ} :
    {E A : Type ℓ} {Q R : A → Type ℓ} (r : Result E A)
    → ((a : A) → Q a → R a)
    → Satisfied Q r
    → Satisfied R r
Satisfied-weaken (ok a) f h = f a h
Satisfied-weaken (err e) f h = tt

pub Yields-weaken {ℓ} :
    {S E A : Type ℓ} {Q R : A → Type ℓ} (m : Exec S E A)
    → ((a : A) → Q a → R a)
    → Yields Q m
    → Yields R m
Yields-weaken m f hm = record { result = λ s. Satisfied-weaken (m s).0 f (hm.result s) }

Satisfied-all {ℓ} :
    {E A : Type ℓ} {Q : A → Type ℓ} (r : Result E A) → ((a : A) → Q a) → Satisfied Q r
Satisfied-all (ok a) h = h a
Satisfied-all (err e) h = tt

pub Yields-all {ℓ} :
    {S E A : Type ℓ} {Q : A → Type ℓ} (m : Exec S E A) → ((a : A) → Q a) → Yields Q m
Yields-all m h = record { result = λ s. Satisfied-all (m s).0 h }
