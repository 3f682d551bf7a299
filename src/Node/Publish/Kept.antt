-- ===== src/Node/Publish/Kept.antt =====
-- Publishing and unpublishing keep every property that bears their calls and their locks.
use csi_driver_smb.Base.{Bool, true, false, Option, none, some, List}
use csi_driver_smb.Text.{Text}
use csi_driver_smb.Dict.{Dict}
use csi_driver_smb.Exec.Keeps.{Keeps, keeps_rules}
use csi_driver_smb.World.{OsError, Env, World}
use csi_driver_smb.Config.{Config}
use csi_driver_smb.Invariant.{Guarded, call_rules}
use csi_driver_smb.Node.Mounter.Kept.{
  Keeps-ensure_mount_point, Keeps-cleanup_publish_point, Keeps-prepare_path,
}
use csi_driver_smb.Node.Context.{VolumeCapability}
use csi_driver_smb.Node.Stage.Kept.{Keeps-node_stage_volume}
use csi_driver_smb.Node.Publish.{
  PublishRequest, UnpublishRequest, after_bind_mount, bind_mount, publish_or_stage,
  node_publish_volume, node_unpublish_volume,
}

module _ (env : Env) (cfg : Config) {P : List Text → World → Type 0} (guarded : Guarded cfg P)
    (held : List Text) where
  Keeps-after_bind_mount :
      (target : Text) (o : Option OsError) → Keeps (P held) (after_bind_mount env cfg target o)
  unfolding after_bind_mount
  Keeps-after_bind_mount target none = search keeps_rules
  Keeps-after_bind_mount target (some e) =
      search (keeps_rules, call_rules, guarded.borne.ordinary held)

  Keeps-bind_mount :
      (source target : Text) (options : List Text) (b : Bool)
      → Keeps (P held) (bind_mount env cfg source target options b)
  unfolding bind_mount
  Keeps-bind_mount source target options true = search keeps_rules
  Keeps-bind_mount source target options false = search (
    keeps_rules,
    call_rules,
    guarded.borne.ordinary held,
    Keeps-prepare_path,
    Keeps-after_bind_mount,
  )

  Keeps-publish_or_stage :
      (req : PublishRequest) (c : VolumeCapability) (o : Option Dict)
      → Keeps (P held) (publish_or_stage env cfg req c o)
  unfolding publish_or_stage
  Keeps-publish_or_stage req c none =
      search (keeps_rules, guarded.borne.ordinary held, Keeps-ensure_mount_point, Keeps-bind_mount)
  Keeps-publish_or_stage req c (some context) = Keeps-node_stage_volume env cfg guarded held _

  pub Keeps-node_publish_volume :
      (req : PublishRequest) → Keeps (P held) (node_publish_volume env cfg req)
  unfolding node_publish_volume
  Keeps-node_publish_volume req = search (keeps_rules, Keeps-publish_or_stage)

  pub Keeps-node_unpublish_volume :
      (req : UnpublishRequest) → Keeps (P held) (node_unpublish_volume env cfg req)
  unfolding node_unpublish_volume
  Keeps-node_unpublish_volume req =
      search (keeps_rules, guarded.borne.ordinary held, Keeps-cleanup_publish_point)
