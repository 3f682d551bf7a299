-- ===== src/Interleaved/Exclusion.antt =====
-- No two handlers hold the same lock, however they overlap.
use csi_driver_smb.Base.{
  ◌≡◌, refl, sym, ◌∙◌, ap, true, false, ◌||◌, ◌&&◌, List, [], ◌∷◌, ◌++◌, arith, Bool-cases, inl,
  inr,
}
use csi_driver_smb.Text.{Text, text_eq}
use csi_driver_smb.Text.Search.{text_eq_iff, text_eq_refl}
use csi_driver_smb.World.{World, InFlight}
use csi_driver_smb.Locks.{has, try_acquire}
use csi_driver_smb.Config.{Config}
use csi_driver_smb.Driver.Locking.{
  keys, Fresh, Tracked, Closed-Tracked, Tracked-note, keys-without, Fresh-release,
  Tracked-new_driver,
}
use csi_driver_smb.Driver.Kept.{ended}
use csi_driver_smb.Locks.Laws.{has-release}
use csi_driver_smb.Interleaved.{
  Shared, Action, called, refused, acquired, released, handed_over, finished, Actions, here,
  then_act, idle,
}

has-middle :
    (before : List Text) (k : Text) (after : List Text) (j : Text)
    → has (before ++ k ∷ after) j ≡ has (k ∷ before ++ after) j
unfolding has
has-middle [] k after j = refl
has-middle (i ∷ before) k after j = ground (arith, has-middle before k after j)

Fresh-middle :
    (before : List Text) (k : Text) (after : List Text)
    → Fresh (before ++ k ∷ after)
    → Fresh (k ∷ before ++ after)
unfolding has
Fresh-middle [] k after h = h
Fresh-middle (i ∷ before) k after (h, hs) =
    let (hk, rest) = Fresh-middle before k after hs in
    let first = sym (has-middle before k after i) ∙ h in
    (
      ground (arith, text_eq_iff i k, text_eq_iff k i),
      (ground (arith, text_eq_iff i k, text_eq_iff k i), rest),
    )

-- A key may be brought to the front of those that are held.
Tracked-middle :
    (before : List Text) (k : Text) (after : List Text) (w : World)
    → Tracked (before ++ k ∷ after) w
    → Tracked (k ∷ before ++ after) w
Tracked-middle before k after w h = record {
  locked = λ j. rw (← has-middle before k after j) (h.locked j);
  apart = λ j e. h.apart j (has-middle before k after j ∙ e);
  once = Fresh-middle before k after h.once;
  single = h.single;
}

has-keys :
    (before : List InFlight) (f : InFlight) (after : List InFlight)
    → has (keys (before ++ f ∷ after)) f.lock_key ≡ true
unfolding has
has-keys [] f after = ground (arith, text_eq_refl f.lock_key)
has-keys (g ∷ before) f after = ground (arith, has-keys before f after)

has_eq : (ks : List Text) (k j : Text) → text_eq k j ≡ true → has ks k ≡ has ks j
has_eq ks k j e = rw ((text_eq_iff k j).0 e)

-- The end of a running mount frees no key that a handler holds.
Tracked-finished :
    (held : List Text) (f : InFlight) (w : World)
    → has (keys w.in_flight) f.lock_key ≡ true
    → Tracked held w
    → Tracked held (ended f w)
Tracked-finished held f w m h = record {
  locked = λ j. rw (keys-without f.lock_key w.in_flight) (
      ground (
        arith,
        h.locked j,
        h.apart j,
        has_eq (keys w.in_flight) f.lock_key j,
        has-release w.locks f.lock_key j,
        has-release (keys w.in_flight) f.lock_key j,
      ));
  apart = λ j e.
      rw (keys-without f.lock_key w.in_flight)
        (ground (arith, h.apart j, has-release (keys w.in_flight) f.lock_key j));
  once = h.once;
  single =
      rw (keys-without f.lock_key w.in_flight)
        (Fresh-release (keys w.in_flight) f.lock_key h.single);
}

abbrev some_config : Config
some_config = record {
  windows = false;
  working_mount_dir = [];
  krb5_cache_directory = [];
  krb5_prefix = [];
  default_on_delete_policy = [];
  remove_archived_volume_path = false;
  kube_client = false;
}

-- The locks are tracked in the state of handlers that overlap.
abbrev pub IsTracked : Shared → Type 0
IsTracked s = Tracked s.held s.world

Action-IsTracked : (s t : Shared) → Action s t → IsTracked s → IsTracked t
unfolding try_acquire
Action-IsTracked s t (called c e) h = rw e (Tracked-note s.held c s.world h)
Action-IsTracked s t (refused k free e) h = rw e h
Action-IsTracked s t (acquired k free e) h = elim (Bool-cases (has s.world.locks k)) [
  | inl b ↦ (let free' = rw b at free in cc)
  | inr b ↦ rw (e, b) ((Closed-Tracked some_config).guarded.acquired s.held k s.world b h)
]
Action-IsTracked s t (released before k after e f) h = rw f (
    (Closed-Tracked some_config).guarded.released (before ++ after) k s.world
      (Tracked-middle before k after s.world (rw e at h)))
Action-IsTracked s t (handed_over before f after e g) h = rw g (
    (Closed-Tracked some_config).guarded.borne.handed_over (before ++ after) f s.world
      (Tracked-middle before f.lock_key after s.world (rw e at h)))
Action-IsTracked s t (finished before f after e g) h =
    let running = ap (λ fs. has (keys fs) f.lock_key) e ∙ has-keys before f after in
    rw g (Tracked-finished s.held f s.world running h)

Actions-IsTracked : {s t : Shared} → Actions s t → IsTracked s → IsTracked t
Actions-IsTracked here h = h
Actions-IsTracked (then_act {t} {u} earlier a) h =
    Action-IsTracked t u a (Actions-IsTracked earlier h)

-- However handlers overlap, and whatever they call in between, no two of them hold the same key, none
-- holds the key of a mount that is still running, and a key is locked exactly when it is held or the
-- key of such a mount.
pub Actions-Fresh :
    (s : Shared) (k : Text)
    → Actions idle s
    → Fresh s.held
      × ((has s.held k && has (keys s.world.in_flight) k) ≡ false)
      × (has s.world.locks k ≡ (has s.held k || has (keys s.world.in_flight) k))
Actions-Fresh s k earlier =
    let h = Actions-IsTracked earlier Tracked-new_driver in
    (h.once, ground (arith, h.apart k), h.locked k)
