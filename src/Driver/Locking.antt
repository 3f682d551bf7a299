-- ===== src/Driver/Locking.antt =====
-- The locks of a driver process between its requests.
use csi_driver_smb.Base.{◌≡◌, refl, true, false, ◌||◌, List, [], ◌∷◌, arith, Bool-cases, inl, inr}
use csi_driver_smb.Text.{Text, text_eq}
use csi_driver_smb.Text.Search.{text_eq_iff, text_eq_refl}
use csi_driver_smb.World.{Call, Env, InFlight, World, note}
use csi_driver_smb.Locks.{has, delete, release}
use csi_driver_smb.Locks.Laws.{has-release}
use csi_driver_smb.Config.{Config}
use csi_driver_smb.Invariant.{Closed}
use csi_driver_smb.Node.Stage.{without}
use csi_driver_smb.Volume.Defs.{SmbVolume}
use csi_driver_smb.Controller.Delete.Kept.{Bears}
use csi_driver_smb.Driver.{Reached, new_driver}
use csi_driver_smb.Driver.Kept.{ended, Reached-keeps}

-- the keys of the mounts that are still running
abbrev pub keys : List InFlight → List Text
keys [] = []
keys (f ∷ fs) = f.lock_key ∷ keys fs

abbrev pub Fresh : List Text → Type 0
Fresh [] = Unit
Fresh (k ∷ ks) = (has ks k ≡ false) × Fresh ks

-- Who holds the locks: the handlers that run, and the mounts that outlive theirs.
pub record Tracked (held : List Text) (w : World) : Type 0 where
  pub locked : (k : Text) → has w.locks k ≡ (has held k || has (keys w.in_flight) k)
  pub apart : (k : Text) → has held k ≡ true → has (keys w.in_flight) k ≡ false
  pub once : Fresh held
  pub single : Fresh (keys w.in_flight)

pub keys-without : (k : Text) (fs : List InFlight) → keys (without k fs) ≡ release (keys fs) k
unfolding without release delete
keys-without k [] = refl
keys-without k (f ∷ fs) = elim (Bool-cases (text_eq f.lock_key k)) [
  | inl e ↦ rw (e, keys-without k fs)
  | inr e ↦ rw (e, keys-without k fs)
]

has_eq : (ks : List Text) (k j : Text) → text_eq k j ≡ true → has ks k ≡ has ks j
has_eq ks k j e = rw ((text_eq_iff k j).0 e)

pub Fresh-release : (ks : List Text) (k : Text) → Fresh ks → Fresh (release ks k)
unfolding release delete
Fresh-release [] k h = tt
Fresh-release (j ∷ ks) k (h, hs) = elim (Bool-cases (text_eq j k)) [
  | inl e ↦ rw e (Fresh-release ks k hs)
  | inr e ↦ rw e (ground (arith, has-release ks k j), Fresh-release ks k hs)
]

pub Tracked-note :
    (held : List Text) (c : Call) (w : World) → Tracked held w → Tracked held (note c w)
Tracked-note held c w h = record {
  locked = h.locked;
  apart = h.apart;
  once = h.once;
  single = h.single;
}

pub Closed-Tracked : (cfg : Config) → Closed cfg Tracked
unfolding has
Closed-Tracked cfg = record {
  guarded = record {
    borne = record {
      ordinary = λ held c w o h. Tracked-note held c w h;
      link_removed = λ held name w h. Tracked-note held _ w h;
      link_renamed = λ held from name w h. Tracked-note held _ w h;
      handed_over = λ held f w h. record {
        locked = λ j. ground (arith, h.locked j);
        apart = λ j. ground (arith, h.apart j, h.once.0, has_eq held f.lock_key j);
        once = h.once.1;
        single = (h.apart f.lock_key (ground (arith, text_eq_refl f.lock_key)), h.single);
      };
    };
    acquired = λ held k w free h. record {
      locked = λ j. ground (arith, h.locked j);
      apart = λ j.
          ground (arith, h.locked k, h.apart j, text_eq_iff k j, has_eq (keys w.in_flight) k j);
      once = (ground (arith, h.locked k), h.once);
      single = h.single;
    };
    released = λ held k w h. record {
      locked = λ j. ground (
        arith,
        has-release w.locks k j,
        h.locked j,
        h.apart j,
        h.once.0,
        has_eq held k j,
        has_eq (keys w.in_flight) k j,
      );
      apart = λ j. ground (arith, h.apart j);
      once = h.once.1;
      single = h.single;
    };
  };
  unmounted = λ volume_id held target w h. Tracked-note held _ w h;
}

Bears-Tracked : (cfg : Config) (vol : SmbVolume) → Bears cfg Tracked vol
Bears-Tracked cfg vol = record {
  removed = λ held w h. Tracked-note held _ w h;
  archive_removed = λ held w h. Tracked-note held _ w h;
  archived = λ held w h. Tracked-note held _ w h;
}

Tracked-ended : (f : InFlight) (w : World) → Tracked [] w → Tracked [] (ended f w)
unfolding has
Tracked-ended f w h = record {
  locked = λ j. rw (keys-without f.lock_key w.in_flight) (
      ground (
        arith,
        h.locked j,
        has-release w.locks f.lock_key j,
        has-release (keys w.in_flight) f.lock_key j,
      ));
  apart = λ j. ground arith;
  once = tt;
  single =
      rw (keys-without f.lock_key w.in_flight)
        (Fresh-release (keys w.in_flight) f.lock_key h.single);
}

pub Tracked-new_driver : Tracked [] new_driver
unfolding has
Tracked-new_driver = record { locked = λ j. refl; apart = λ j h. refl; once = tt; single = tt }

-- Between two requests of a driver process, whatever came before and whatever the calls answered, a
-- key is locked exactly when a mount under that key is still running, and no two running mounts have
-- the same key.
pub locked-in_flight :
    (env : Env) (cfg : Config) (w : World) (k : Text)
    → Reached env cfg w
    → (has w.locks k ≡ has (keys w.in_flight) k) × Fresh (keys w.in_flight)
unfolding has
locked-in_flight env cfg w k r =
    let h =
      Reached-keeps env cfg (Closed-Tracked cfg) (λ id vol e. Bears-Tracked cfg vol)
        Tracked-new_driver Tracked-ended w r in
    (h.locked k, h.single)
