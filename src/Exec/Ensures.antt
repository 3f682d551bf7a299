-- ===== src/Exec/Ensures.antt =====
-- What a successful action has done.
use csi_driver_smb.Base.{◌≡◌, ap, inl, inr, Bool, true, false, if◌then◌else◌}
use csi_driver_smb.Result.{Result, ok, err}
use csi_driver_smb.Result.Laws.{Result-cases}
use csi_driver_smb.Exec.{Exec, raise, lift, wrap, continue, ◌>>=◌, finally}
use csi_driver_smb.Exec.Keeps.{Keeps}

-- the state is right unless there is an error
abbrev pub Reaches {ℓ} : {S E A : Type ℓ} → (S → Type ℓ) → Result E A → S → Type ℓ
Reaches Q (ok a) s = Q s
Reaches Q (err e) s = Unit

-- From a state with `P`, success leads to a state with `Q`.
pub record Ensures {ℓ} {S E A : Type ℓ} (P Q : S → Type ℓ) (m : Exec S E A) : Type ℓ where
  pub after : (s : S) → P s → Reaches Q (m s).0 (m s).1

pub Reaches-ok {ℓ} :
    {S E A : Type ℓ} (Q : S → Type ℓ) (r : Result E A) (s : S) (a : A)
    → r ≡ ok a
    → Reaches Q r s
    → Q s
Reaches-ok Q r s a e h = rw e at h

Reaches-always {ℓ} :
    {S E A : Type ℓ} (Q : S → Type ℓ) (r : Result E A) (s : S) → Q s → Reaches Q r s
Reaches-always Q (ok a) s h = h
Reaches-always Q (err e) s h = tt

pub Ensures-Keeps {ℓ} :
    {S E A : Type ℓ} {Q : S → Type ℓ} (m : Exec S E A) → Keeps Q m → Ensures Q Q m
Ensures-Keeps m km = record { after = λ s h. Reaches-always _ (m s).0 (m s).1 (km.after s h) }

module _ {ℓ} {S E A : Type ℓ} {P Q : S → Type ℓ} where
  pub Ensures-raise : (e : E) → Ensures {A = A} P Q (raise e)
  unfolding raise
  Ensures-raise e = record { after = λ s h. tt }

  pub Ensures-if :
      (b : Bool) (m n : Exec S E A)
      → Ensures P Q m
      → Ensures P Q n
      → Ensures P Q (if b then m else n)
  Ensures-if true m n hm hn = hm
  Ensures-if false m n hm hn = hn

module _ {ℓ} {S E A B : Type ℓ} {Q : S → Type ℓ} where
  Reaches-keep :
      (f : A → Exec S E B) (r : Result E A) (s : S)
      → ((a : A) → Keeps Q (f a))
      → Reaches Q r s
      → Reaches Q (continue r f s).0 (continue r f s).1
  Reaches-keep f (ok a) s kf h = Reaches-always _ (f a s).0 (f a s).1 ((kf a).after s h)
  Reaches-keep f (err e) s kf h = tt

  Reaches-cleanup :
      (r : Result E A) (c : Exec S E B) (s : S) → Keeps Q c → Reaches Q r s → Reaches Q r (c s).1
  Reaches-cleanup (ok a) c s kc h = kc.after s h
  Reaches-cleanup (err e) c s kc h = tt

module _ {ℓ} {S E A B : Type ℓ} {P Q : S → Type ℓ} where
  -- the first action does it
  pub Ensures-first :
      (m : Exec S E A) (f : A → Exec S E B)
      → Ensures P Q m
      → ((a : A) → Keeps Q (f a))
      → Ensures P Q (m >>= f)
  unfolding ◌>>=◌
  Ensures-first m f hm kf = record {
    after = λ s h. Reaches-keep f (m s).0 (m s).1 kf (hm.after s h);
  }

  Reaches-then :
      (f : A → Exec S E B) (r : Result E A) (s : S)
      → ((a : A) → Ensures P Q (f a))
      → P s
      → Reaches Q (continue r f s).0 (continue r f s).1
  Reaches-then f (ok a) s hf h = (hf a).after s h
  Reaches-then f (err e) s hf h = tt

  -- what follows does it
  pub Ensures-then :
      (m : Exec S E A) (f : A → Exec S E B)
      → Keeps P m
      → ((a : A) → Ensures P Q (f a))
      → Ensures P Q (m >>= f)
  unfolding ◌>>=◌
  Ensures-then m f km hf = record {
    after = λ s h. Reaches-then f (m s).0 (m s).1 hf (km.after s h);
  }

  pub Ensures-finally :
      (m : Exec S E A) (c : Exec S E B) → Ensures P Q m → Keeps Q c → Ensures P Q (finally m c)
  unfolding finally
  Ensures-finally m c hm kc = record {
    after = λ s h. Reaches-cleanup (m s).0 c (m s).1 kc (hm.after s h);
  }

module _ {ℓ} {S E F A B : Type ℓ} {P Q : S → Type ℓ} where
  pub Ensures-bind_ok :
      (g : E → F) (r : Result E A) (a : A) (f : A → Exec S F B)
      → r ≡ ok a
      → Ensures P Q (f a)
      → Ensures P Q (wrap g (lift r) >>= f)
  unfolding ◌>>=◌ wrap lift
  Ensures-bind_ok g r a f e hf = rw e (record { after = λ s h. hf.after s h })

module _ {ℓ} {S E A B : Type ℓ} {Q R : S → Type ℓ} where
  Reaches-both :
      (f : A → Exec S E B) (r : Result E A) (s : S)
      → ((a : A) → Ensures Q R (f a))
      → Reaches Q r s
      → Reaches R (continue r f s).0 (continue r f s).1
  Reaches-both f (ok a) s hf h = (hf a).after s h
  Reaches-both f (err e) s hf h = tt

module _ {ℓ} {S E A B : Type ℓ} {P Q R : S → Type ℓ} where
  -- both do their part
  pub Ensures-both :
      (m : Exec S E A) (f : A → Exec S E B)
      → Ensures P Q m
      → ((a : A) → Ensures Q R (f a))
      → Ensures P R (m >>= f)
  unfolding ◌>>=◌
  Ensures-both m f hm hf = record {
    after = λ s h. Reaches-both f (m s).0 (m s).1 hf (hm.after s h);
  }

module _ {S E F A : Type 0} {P Q : S → Type 0} where
  pub Ensures-wrap : (g : E → F) (m : Exec S E A) → Ensures P Q m → Ensures P Q (wrap g m)
  unfolding wrap
  Ensures-wrap g m hm = record {
    after = λ s h. elim (Result-cases (m s).0) [
      | inl (a, e) ↦ rw e (rw e at (hm.after s h))
      | inr (x, e) ↦ rw e tt
    ];
  }

  -- what follows depends on what the first action answered
  pub Ensures-wrap_then :
      {B : Type 0} (g : E → F) (m : Exec S E A) (f : A → Exec S F B)
      → ((s : S) (a : A) → P s → m s ≡ (ok a, (m s).1) → Reaches Q (f a (m s).1).0 (f a (m s).1).1)
      → Ensures P Q (wrap g m >>= f)
  unfolding wrap ◌>>=◌
  Ensures-wrap_then g m f hf = record {
    after = λ s h. elim (Result-cases (m s).0) [
      | inl (a, e) ↦ rw e (hf s a h (ap (λ r. (r, (m s).1)) e))
      | inr (x, e) ↦ rw e tt
    ];
  }
