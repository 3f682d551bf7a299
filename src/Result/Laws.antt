-- ===== src/Result/Laws.antt =====
-- What a result that is `ok` says of the steps that led to it.
use csi_driver_smb.Base.{◌≡◌, refl, ◌⊎◌, inl, inr, Bool, true, false}
use csi_driver_smb.Result.{Result, ok, err, ◌>>=◌, or_err, require}

pub ok-injective {ℓ κ} :
    {E : Type ℓ} {A : Type κ} {a b : A} → Path (Result E A) (ok a) (ok b) → a ≡ b
ok-injective h = cc

pub or_err-ok {ℓ κ} :
    {E F : Type ℓ} {A : Type κ} (r : Result E (Unit {0})) (e : F) (k : Result F A) (a : A)
    → (or_err r e >>= λ _. k) ≡ ok a
    → (r ≡ ok tt) × (k ≡ ok a)
or_err-ok (ok tt) e k a h = (refl, h)
or_err-ok (err x) e k a h = cc

pub require-ok {ℓ κ} :
    {E : Type ℓ} {A : Type κ} (b : Bool) (e : E) (k : Result E A) (a : A)
    → (require b e >>= λ _. k) ≡ ok a
    → (b ≡ true) × (k ≡ ok a)
require-ok true e k a h = (refl, h)
require-ok false e k a h = cc

pub bind-ok {ℓ κ μ} :
    {E : Type ℓ} {A : Type κ} {B : Type μ} (r : Result E A) (f : A → Result E B) (b : B)
    → (r >>= f) ≡ ok b
    → (a : A) × (r ≡ ok a) × (f a ≡ ok b)
bind-ok (ok a) f b h = (a, refl, h)
bind-ok (err x) f b h = cc

-- To split on a computed result and keep the equation.
pub Result-cases {ℓ κ} :
    {E : Type ℓ} {A : Type κ} (r : Result E A) → ((a : A) × (r ≡ ok a)) ⊎ ((e : E) × (r ≡ err e))
Result-cases (ok a) = inl (a, refl)
Result-cases (err e) = inr (e, refl)
