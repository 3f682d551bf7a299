-- ===== src/Interleaved/Handlers.antt =====
-- Each handler keeps to the protocol, whoever else holds locks.
use csi_driver_smb.Base.{◌≡◌, refl, false, List, [], ◌∷◌}
use csi_driver_smb.Text.{Text}
use csi_driver_smb.World.{Call, Env, World, note}
use csi_driver_smb.Locks.{has, try_acquire}
use csi_driver_smb.Config.{Config}
use csi_driver_smb.Invariant.{Closed}
use csi_driver_smb.Volume.Defs.{SmbVolume}
use csi_driver_smb.Controller.Delete.Kept.{Bears}
use csi_driver_smb.Driver.{Request, serve}
use csi_driver_smb.Driver.Kept.{serve-keeps}
use csi_driver_smb.Interleaved.{
  Shared, called, acquired, released, handed_over, Actions, here, then_act,
}

-- reached from `s` by actions, with these keys held
abbrev From : Shared → List Text → World → Type 0
From s held w = Actions s (record { world = w; held = held })

From-note :
    (s : Shared) (held : List Text) (c : Call) (w : World) → From s held w → From s held (note c w)
From-note s held c w h = then_act h (called c refl)

From-acquired :
    (s : Shared) (held : List Text) (k : Text) (w : World)
    → has w.locks k ≡ false
    → From s held w
    → From s (k ∷ held) (record w { locks = k ∷ w.locks })
unfolding try_acquire
From-acquired s held k w free h = then_act h (acquired k (rw free refl) (rw free refl))

Closed-From : (cfg : Config) (s : Shared) → Closed cfg (From s)
Closed-From cfg s = record {
  guarded = record {
    borne = record {
      ordinary = λ held c w o h. From-note s held c w h;
      link_removed = λ held name w h. From-note s held _ w h;
      link_renamed = λ held from name w h. From-note s held _ w h;
      handed_over = λ held f w h. then_act h (handed_over [] f held refl refl);
    };
    acquired = λ held k w free h. From-acquired s held k w free h;
    released = λ held k w h. then_act h (released [] k held refl refl);
  };
  unmounted = λ volume_id held target w h. From-note s held _ w h;
}

Bears-From : (cfg : Config) (s : Shared) (vol : SmbVolume) → Bears cfg (From s) vol
Bears-From cfg s vol = record {
  removed = λ held w h. From-note s held _ w h;
  archive_removed = λ held w h. From-note s held _ w h;
  archived = λ held w h. From-note s held _ w h;
}

-- Every request, whichever locks others hold while it is served and whatever its calls answer, takes
-- effect as a sequence of actions of the protocol, at the end of which it holds no lock of its own:
-- what is left locked is left to a mount.
pub serve-Actions :
    (env : Env) (cfg : Config) (req : Request) (held : List Text) (w : World)
    → Actions
        (record { world = w; held = held })
        (record { world = serve env cfg req w; held = held })
serve-Actions env cfg req held w =
    serve-keeps env cfg (Closed-From cfg (record { world = w; held = held }))
      (λ id vol e. Bears-From cfg (record { world = w; held = held }) vol) held req w here
