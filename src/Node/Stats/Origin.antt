-- ===== src/Node/Stats/Origin.antt =====
-- Where the statistics in an answer come from.
use csi_driver_smb.Base.{
  ◌≡◌, ◌⊎◌, refl, sym, ◌∙◌, ap, inl, inr, Bool, true, false, Option, none, some, ◌∷◌,
}
use csi_driver_smb.Result.{Result, Status, ok, err}
use csi_driver_smb.Result.Laws.{ok-injective}
use csi_driver_smb.Exec.{Exec, pure, raise, lift, check, check_none, ◌>>=◌}
use csi_driver_smb.Exec.Runs.{bind_known}
use csi_driver_smb.World.{
  OsError, not_exist, exist, corrupted, end_of_file, other, Trace, lstat, stats_cache_get,
  stats_cache_set, get_metrics, VolumeStats, Env, World, Run, note, perform, perform_metrics,
  perform_stats,
}
use csi_driver_smb.Node.Stats.Measured.{stats_of}
use csi_driver_smb.Node.Stats.{
  StatsRequest, check_path, measure, cached_or_measured, node_get_volume_stats,
}

-- Runs that pass a check.
module _ {S E A : Type 0} (f : Unit {0} → Exec S E A) (s s' : S) (x : A) where
  check-ok :
      (b : Bool) (e : E) → (check b e >>= f) s ≡ (ok x, s') → (b ≡ true) × (f tt s ≡ (ok x, s'))
  unfolding check ◌>>=◌ pure raise
  check-ok true e h = (refl, h)
  check-ok false e h = (let i = ap (λ y. y.0) h in cc)

  check_none-ok :
      {X : Type 0} (o : Option X) (e : E)
      → (check_none o e >>= f) s ≡ (ok x, s')
      → (o ≡ none) × (f tt s ≡ (ok x, s'))
  unfolding check_none ◌>>=◌ pure raise
  check_none-ok none e h = (refl, h)
  check_none-ok (some _) e h = (let i = ap (λ y. y.0) h in cc)

module _ {A : Type 0} (w w' : World) (x : A) where
  check_path-ok :
      (f : Unit {0} → Run Status A) (o : Option OsError)
      → (check_path o >>= f) w ≡ (ok x, w')
      → (o ≡ none) × (f tt w ≡ (ok x, w'))
  unfolding check_path ◌>>=◌ pure raise
  check_path-ok f none h = (refl, h)
  check_path-ok f (some not_exist) h = (let i = ap (λ y. y.0) h in cc)
  check_path-ok f (some exist) h = (let i = ap (λ y. y.0) h in cc)
  check_path-ok f (some corrupted) h = (let i = ap (λ y. y.0) h in cc)
  check_path-ok f (some end_of_file) h = (let i = ap (λ y. y.0) h in cc)
  check_path-ok f (some other) h = (let i = ap (λ y. y.0) h in cc)

  lift-ok :
      {B : Type 0} (f : B → Run Status A) (r : Result Status B)
      → (lift r >>= f) w ≡ (ok x, w')
      → (b : B) × (r ≡ ok b) × (f b w ≡ (ok x, w'))
  unfolding lift ◌>>=◌
  lift-ok f (ok b) h = (b, refl, h)
  lift-ok f (err e) h = (let i = ap (λ y. y.0) h in cc)

module _ (env : Env) (req : StatsRequest) where
  -- The statistics were in the cache under the id of the volume, and no other call was made.
  pub record Cached (stats : VolumeStats) (tr tr' : Trace) : Type 0 where
    pub found : env.cached_stats tr (stats_cache_get req.volume_id) ≡ some stats
    pub last : tr' ≡ stats_cache_get req.volume_id ∷ tr

  -- `tr` ends with the read of the cache: the path of the volume was there, its metrics were taken
  -- without an error and make the statistics, and the cache was set last.
  pub record Measured (stats : VolumeStats) (tr tr' : Trace) : Type 0 where
    pub there : env.error tr (lstat req.volume_path) ≡ none
    pub taken : env.error (lstat req.volume_path ∷ tr) (get_metrics req.volume_path) ≡ none
    pub made :
        stats_of (env.metrics (lstat req.volume_path ∷ tr) (get_metrics req.volume_path)) ≡ ok stats
    pub last :
        tr'
        ≡ stats_cache_set req.volume_id ∷ get_metrics req.volume_path ∷ lstat req.volume_path ∷ tr

  measure-Measured :
      (w w' : World) (stats : VolumeStats)
      → measure env req w ≡ (ok stats, w')
      → Measured stats w.trace w'.trace
  unfolding measure perform perform_metrics pure
  measure-Measured w w' stats h =
      let path = req.volume_path in
      let w₁ = note (lstat path) w in
      let w₂ = note (get_metrics path) w₁ in
      let w₃ = note (stats_cache_set req.volume_id) w₂ in
      let h₁ =
        bind_known (perform env (lstat path)) _ w w' w₁ (env.error w.trace (lstat path)) stats refl
          h in
      let (there, h₂) = check_path-ok w₁ w' stats _ _ h₁ in
      let h₃ =
        bind_known (perform_metrics env (get_metrics path)) _ w₁ w' w₂
          (env.error w₁.trace (get_metrics path), env.metrics w₁.trace (get_metrics path)) stats
          refl h₂ in
      let (taken, h₄) = check_none-ok _ w₂ w' stats _ _ h₃ in
      let (sent, made, h₅) = lift-ok w₂ w' stats _ _ h₄ in
      let h₆ =
        bind_known (perform env (stats_cache_set req.volume_id)) _ w₂ w' w₃
          (env.error w₂.trace (stats_cache_set req.volume_id)) stats refl h₅ in
      record {
        there = there;
        taken = taken;
        made = made ∙ ap (λ y. y.0) h₆;
        last = sym (ap (λ y. y.1.trace) h₆);
      }

  cached_or_measured-cases :
      (o : Option VolumeStats) (w w' : World) (stats : VolumeStats)
      → cached_or_measured env req o w ≡ (ok stats, w')
      → ((o ≡ some stats) × (w'.trace ≡ w.trace)) ⊎ ((o ≡ none) × Measured stats w.trace w'.trace)
  unfolding cached_or_measured pure
  cached_or_measured-cases none w w' stats h = inr (refl, measure-Measured w w' stats h)
  cached_or_measured-cases (some s) w w' stats h =
      inl (ap some (ok-injective (ap (λ y. y.0) h)), sym (ap (λ y. y.1.trace) h))

  -- A NodeGetVolumeStats that answers with statistics has read the cache without an error. Either they
  -- were in the cache under the id of the volume, and no other call was made; or the cache had none,
  -- the path of the volume was there, the statistics are what its metrics, taken then and without an
  -- error, make, and the cache was set last.
  pub node_get_volume_stats-Measured :
      (w w' : World) (stats : VolumeStats)
      → node_get_volume_stats env req w ≡ (ok stats, w')
      → let get = stats_cache_get req.volume_id in
        (env.error w.trace get ≡ none)
        × (Cached stats w.trace w'.trace
            ⊎ ((env.cached_stats w.trace get ≡ none) × Measured stats (get ∷ w.trace) w'.trace))
  unfolding node_get_volume_stats perform_stats
  node_get_volume_stats-Measured w w' stats h =
      let get = stats_cache_get req.volume_id in
      let w₁ = note get w in
      let (_, h₁) = check-ok _ w w' stats _ _ h in
      let (_, h₂) = check-ok _ w w' stats _ _ h₁ in
      let h₃ =
        bind_known (perform_stats env get) _ w w' w₁
          (env.error w.trace get, env.cached_stats w.trace get) stats refl h₂ in
      let (read, h₄) = check_none-ok _ w₁ w' stats _ _ h₃ in
      (
        read,
        elim (cached_or_measured-cases (env.cached_stats w.trace get) w₁ w' stats h₄) [
          | inl (found, last) ↦ inl (record { found = found; last = last })
          | inr (missed, measured) ↦ inr (missed, measured)
        ],
      )
