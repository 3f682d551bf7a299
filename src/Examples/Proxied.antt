-- ===== src/Examples/Proxied.antt =====
-- The node service over csi-proxy on a concrete input.
use csi_driver_smb.Base.{◌≡◌, refl, true, none, some, [], ◌∷◌}
use csi_driver_smb.Text.{Text, codes}
use csi_driver_smb.Result.{ok}
use csi_driver_smb.World.{Call, smb_mount, Env, World, done}
use csi_driver_smb.Refcount.{reference_dir, get_md5}
use csi_driver_smb.CsiProxy.{mapping_or_error, remote_source}
use csi_driver_smb.CsiProxy.Removal.{removals}
use csi_driver_smb.CsiProxy.Spared.{Spared}
use csi_driver_smb.Config.{Config}
use csi_driver_smb.Driver.{Request, serve}
use csi_driver_smb.NodeOnProxy.{over_proxy, proxy_after}
use csi_driver_smb.NodeOnProxy.Spared.{spares, here, served, over_proxy-Spared}
use csi_driver_smb.Examples.World.{quiet, linux}
use csi_driver_smb.Examples.References.{no_md5}
use csi_driver_smb.Examples.Mappings.{answers}

abbrev proxied : Env
proxied = over_proxy no_md5 true (λ calls c. answers) (quiet done)

abbrev source : Text
source = codes "//a.svc.cluster.local/s/d"

abbrev mount_call : Call
mount_call =
    smb_mount source (codes "c:\\t") (codes "cifs") (codes "u" ∷ []) (codes "p" ∷ []) (codes "v")

-- the volume v is mounted
abbrev after_mount : World
after_mount = record { trace = mount_call ∷ []; locks = []; in_flight = [] }

mount_call-succeeds : proxied.error [] mount_call ≡ none
unfolding over_proxy csi_driver_smb.CsiProxy.smb_mount csi_driver_smb.Exec.◌>>=◌
    csi_driver_smb.Exec.check csi_driver_smb.CsiProxy.mapping_or_error
    csi_driver_smb.Refcount.get_root_mapping_path csi_driver_smb.Text.drop_empty
    csi_driver_smb.Text.split remote_source csi_driver_smb.Refcount.trim_backslash
    csi_driver_smb.Text.replace_byte csi_driver_smb.Text.fields_func csi_driver_smb.Text.text_eq
    csi_driver_smb.Text.has_prefix csi_driver_smb.Refcount.increment
    csi_driver_smb.NodeOnProxy.mounter_call csi_driver_smb.Exec.pure
mount_call-succeeds = refl

abbrev windows : Config
windows = record linux { windows = true }

-- another volume, on the same share
abbrev other_volume : Request
other_volume =
    Request.unstage (record { volume_id = codes "w"; staging_target_path = codes "c:\\u" })

other_volume-spared : spares no_md5 (codes "v") other_volume ≡ true
unfolding csi_driver_smb.Text.text_eq get_md5 csi_driver_smb.Text.to_lower
other_volume-spared = refl

over_proxy-Spared_example :
    (mapping : Text) × (mapping_or_error (remote_source (some (codes "10.0.0.1")) source)
      ≡ ok mapping)
    × Spared
        (reference_dir mapping)
        (get_md5 no_md5 (codes "v"))
        (removals (proxy_after no_md5 true (λ calls c. answers) after_mount.trace).calls)
        (proxy_after no_md5 true
          (λ calls c. answers)
          (serve proxied windows other_volume after_mount).trace)
over_proxy-Spared_example =
    over_proxy-Spared no_md5 (λ calls c. answers) (quiet done) windows after_mount _ source
      (codes "c:\\t") (codes "cifs") (codes "v") (codes "u" ∷ []) (codes "p" ∷ []) [] refl
      mount_call-succeeds (served here other_volume other_volume-spared)
