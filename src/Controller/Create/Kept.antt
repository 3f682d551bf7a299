-- ===== src/Controller/Create/Kept.antt =====
-- CreateVolume keeps every property that bears the calls and the locks of the node service.
use csi_driver_smb.Base.{Option, none, some, List, [], ◌∷◌}
use csi_driver_smb.Text.{Text}
use csi_driver_smb.Exec.Keeps.{Keeps, keeps_rules}
use csi_driver_smb.World.{Env, World}
use csi_driver_smb.Config.{Config}
use csi_driver_smb.Invariant.{Closed, call_rules}
use csi_driver_smb.Volume.Defs.{SmbVolume}
use csi_driver_smb.Node.Context.{VolumeCapability}
use csi_driver_smb.Node.Stage.Kept.{Keeps-locked, released_after}
use csi_driver_smb.Controller.Mount.{ContentSource}
use csi_driver_smb.Controller.Mount.Kept.{Keeps-mounted_for, Keeps-copy_volume}
use csi_driver_smb.Controller.Create.{
  CreateRequest, copy_content, make_sub_dir, create_locked, create_with_lock, create_volume,
}

module _ (env : Env) (cfg : Config) {P : List Text → World → Type 0} (closed : Closed cfg P) where
  pub Keeps-copy_content :
      (held : List Text) (req : CreateRequest) (cs : List VolumeCapability) (vol : SmbVolume)
      (s : Option ContentSource)
      → Keeps (P held) (copy_content env cfg req cs vol s)
  unfolding copy_content
  Keeps-copy_content held req cs vol none = search keeps_rules
  Keeps-copy_content held req cs vol (some s) =
      Keeps-copy_volume env cfg closed held s cs req.secrets vol

  Keeps-make_sub_dir :
      (held : List Text) (req : CreateRequest) (cs : List VolumeCapability) (vol : SmbVolume)
      → Keeps (P held) (make_sub_dir env cfg req cs vol)
  unfolding make_sub_dir
  Keeps-make_sub_dir held req cs vol =
      search (keeps_rules, call_rules, closed.guarded.borne.ordinary held, Keeps-copy_content)

  Keeps-create_locked :
      (held : List Text) (req : CreateRequest) (c : VolumeCapability) (cs : List VolumeCapability)
      (vol : SmbVolume)
      → Keeps (P held) (create_locked env cfg req c cs vol)
  unfolding create_locked
  Keeps-create_locked held req c cs vol =
      search
        (keeps_rules, Keeps-mounted_for env cfg closed held, Keeps-make_sub_dir, Keeps-copy_content)
        depth 9

  Keeps-create_with_lock :
      (held : List Text) (req : CreateRequest) (cs : List VolumeCapability) (vol : SmbVolume)
      → Keeps (P held) (create_with_lock env cfg req cs vol)
  unfolding create_with_lock
  Keeps-create_with_lock held req [] vol = search keeps_rules
  Keeps-create_with_lock held req (c ∷ cs) vol = search (
    Keeps-locked cfg closed.guarded held,
    released_after env cfg closed.guarded held req.name,
    Keeps-create_locked,
  )

  pub Keeps-create_volume :
      (held : List Text) (req : CreateRequest) → Keeps (P held) (create_volume env cfg req)
  unfolding create_volume
  Keeps-create_volume held req = search (keeps_rules, Keeps-create_with_lock) depth 9
