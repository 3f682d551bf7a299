-- ===== src/Exec/Runs.antt =====
-- Successful runs of actions in sequence.
use csi_driver_smb.Base.{◌≡◌, ap, inl, inr}
use csi_driver_smb.Result.{ok}
use csi_driver_smb.Result.Laws.{Result-cases}
use csi_driver_smb.Exec.{Exec, ◌>>=◌}

-- a successful run of two actions
pub bind-ok :
    {S E A B : Type 0} (m : Exec S E A) (f : A → Exec S E B) (s s' : S) (b : B)
    → (m >>= f) s ≡ (ok b, s')
    → (x : A) × ((m s).0 ≡ ok x) × (f x (m s).1 ≡ (ok b, s'))
unfolding ◌>>=◌
bind-ok m f s s' b h = elim (Result-cases (m s).0) [
  | inl (x, e) ↦ (x, e, rw e at h)
  | inr (_, e) ↦ (let i = ap (λ x. x.0) (rw e at h) in cc)
]

-- one whose first action is known
pub bind_known :
    {S E A B : Type 0} (m : Exec S E A) (f : A → Exec S E B) (s s' t : S) (x : A) (b : B)
    → m s ≡ (ok x, t)
    → (m >>= f) s ≡ (ok b, s')
    → f x t ≡ (ok b, s')
unfolding ◌>>=◌
bind_known m f s s' t x b e h = rw e at h
