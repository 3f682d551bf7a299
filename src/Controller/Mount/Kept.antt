-- ===== src/Controller/Mount/Kept.antt =====
-- Internal mounts and copies keep every property that bears their calls and their locks.
use csi_driver_smb.Base.{Option, List}
use csi_driver_smb.Text.{Text}
use csi_driver_smb.Dict.{Dict}
use csi_driver_smb.Result.{Status}
use csi_driver_smb.Exec.Keeps.{Keeps, keeps_rules}
use csi_driver_smb.World.{Env, World, Run}
use csi_driver_smb.Config.{Config}
use csi_driver_smb.Invariant.{Closed, call_rules}
use csi_driver_smb.Volume.Defs.{SmbVolume}
use csi_driver_smb.Node.Context.{VolumeCapability}
use csi_driver_smb.Node.Stage.Kept.{Keeps-node_stage_volume, Keeps-node_unstage_volume}
use csi_driver_smb.Controller.Mount.{
  ContentSource, from_snapshot, improper, from_volume, mounted_for, copy_from_volume, copy_volume,
}

module _ (env : Env) (cfg : Config) {P : List Text → World → Type 0} (closed : Closed cfg P)
    (held : List Text) where
  pub Keeps-mounted_for :
      (vol : SmbVolume) (c : Option VolumeCapability) (secrets : Dict) (failed : Status)
      (body : Run Status (Unit {0}))
      → Keeps (P held) body
      → Keeps (P held) (mounted_for env cfg vol c secrets failed body)
  unfolding mounted_for
  Keeps-mounted_for vol c secrets failed body kb = search (
    keeps_rules,
    Keeps-node_stage_volume env cfg closed.guarded held,
    Keeps-node_unstage_volume env cfg closed.guarded held,
    closed.unmounted,
  )

  Keeps-copy_from_volume :
      (id : Text) (cs : List VolumeCapability) (secrets : Dict) (vol : SmbVolume)
      → Keeps (P held) (copy_from_volume env cfg id cs secrets vol)
  unfolding copy_from_volume
  Keeps-copy_from_volume id cs secrets vol =
      search (keeps_rules, call_rules, closed.guarded.borne.ordinary held, Keeps-mounted_for) depth
        9

  pub Keeps-copy_volume :
      (s : ContentSource) (cs : List VolumeCapability) (secrets : Dict) (vol : SmbVolume)
      → Keeps (P held) (copy_volume env cfg s cs secrets vol)
  unfolding copy_volume
  Keeps-copy_volume from_snapshot cs secrets vol = search keeps_rules
  Keeps-copy_volume improper cs secrets vol = search keeps_rules
  Keeps-copy_volume (from_volume id) cs secrets vol = Keeps-copy_from_volume id cs secrets vol
