-- ===== src/Exec.antt =====
-- Stateful code that may fail: what was done before an error stays done, so the state comes back
-- beside the error too. `defer` is `finally`.
pub mod Keeps
pub mod Runs
pub mod Yields
pub mod Fails
pub mod Ensures
use csi_driver_smb.Base.{Bool, true, false, Option, none, some, if◌then◌else◌}
use csi_driver_smb.Result.{Result, ok, err}

abbrev pub Exec {ℓ} : Type ℓ → Type ℓ → Type ℓ → Type ℓ
Exec S E A = S → Result E A × S

module _ {ℓ} {S E A : Type ℓ} where
  unfoldable pub pure : A → Exec S E A
  pure a s = (ok a, s)

  unfoldable pub raise : E → Exec S E A
  raise e s = (err e, s)

  unfoldable pub lift : Result E A → Exec S E A
  lift r s = (r, s)

module _ {ℓ} {S E : Type ℓ} where
  unfoldable pub modify : (S → S) → Exec S E (Unit {ℓ})
  modify f s = (ok tt, f s)

module _ {ℓ} {S E A B : Type ℓ} where
  abbrev pub continue : Result E A → (A → Exec S E B) → Exec S E B
  continue (ok a) f s = f a s
  continue (err e) f s = (err e, s)

  infixl 10 ◌>>=◌ ◌>>◌
  unfoldable pub ◌>>=◌ : Exec S E A → (A → Exec S E B) → Exec S E B
  unfolding pure raise lift modify
  ◌>>=◌ m f s = let (r, s') = m s in continue r f s'

  abbrev pub ◌>>◌ : Exec S E A → Exec S E B → Exec S E B
  m >> n = m >>= λ _. n

module _ {ℓ} {E F A : Type ℓ} where
  abbrev rename : (E → F) → Result E A → Result F A
  rename f (ok a) = ok a
  rename f (err e) = err (f e)

  abbrev as_option : Result E A → Result F (Option E)
  as_option (ok a) = ok none
  as_option (err e) = ok (some e)

module _ {ℓ} {S E F A : Type ℓ} where
  -- `if err != nil { return nil, f(err) }`
  unfoldable pub wrap : (E → F) → Exec S E A → Exec S F A
  wrap f m s = let (r, s') = m s in (rename f r, s')

  -- the error of a call as a value, to be looked at
  unfoldable pub attempt : Exec S E A → Exec S F (Option E)
  attempt m s = let (r, s') = m s in (as_option r, s')

module _ {ℓ} {S E A B : Type ℓ} where
  -- `defer cleanup`: it runs after the body, whatever the result, and its own result is dropped
  unfoldable pub finally : Exec S E A → Exec S E B → Exec S E A
  finally m cleanup s = let (r, s') = m s in (r, (cleanup s').1)

module _ {ℓ} {S E : Type ℓ} where
  -- `if !b { return nil, e }`
  unfoldable pub check : Bool → E → Exec S E (Unit {ℓ})
  unfolding pure raise
  check b e = if b then pure tt else raise e

  -- `if err != nil { return nil, e }` after a call whose error is `o`
  unfoldable pub check_none {κ} : {X : Type κ} → Option X → E → Exec S E (Unit {ℓ})
  unfolding pure raise
  check_none none e = pure tt
  check_none (some x) e = raise e
