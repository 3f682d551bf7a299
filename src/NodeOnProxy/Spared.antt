-- ===== src/NodeOnProxy/Spared.antt =====
-- A volume that is staged over csi-proxy keeps its mapping while others come and go.
use csi_driver_smb.Base.{
  ◌≡◌, refl, sym, ap, subst, Bool, true, false, not, none, List, [], ◌∷◌, arith,
}
use csi_driver_smb.Text.{Text, codes, text_eq}
use csi_driver_smb.Result.{Result, ok, err}
use csi_driver_smb.Exec.{pure, continue, ◌>>=◌, finally}
use csi_driver_smb.Exec.Keeps.{Keeps, Keeps-pure, Keeps-bind}
use csi_driver_smb.World.{
  OsError, Call, smb_mount, smb_unmount, proxy_rmdir, proxy_exists, is_likely_not_mount_point,
  unmount, mount, Trace, Env, InFlight, World,
}
use csi_driver_smb.Config.{Config}
use csi_driver_smb.Invariant.{is_ordinary, Guarded, Unmounts}
use csi_driver_smb.Refcount.{reference_dir, has_reference, get_md5}
use csi_driver_smb.CsiProxy.{Answers, Proxy, mapping_or_error, remote_source}
use csi_driver_smb.CsiProxy.Removal.{removals}
use csi_driver_smb.CsiProxy.Mounted.{smb_mount-Referenced}
use csi_driver_smb.CsiProxy.Spared.{
  Spared, Keeps-smb_mount, Keeps-smb_unmount, Keeps-exists_path, Keeps-remove_dir, Keeps-link,
  Keeps-is_likely_not_mount_point,
}
use csi_driver_smb.CsiProxy
use csi_driver_smb.Node.Stage.{release_lock, end_in_flight, finish_mount}
use csi_driver_smb.Node.Mounter.Kept.{Keeps-mount_volume}
use csi_driver_smb.Node.Stage.Kept.{Keeps-node_stage_volume, Keeps-node_unstage_volume}
use csi_driver_smb.Node.Publish.Kept.{Keeps-node_publish_volume, Keeps-node_unpublish_volume}
use csi_driver_smb.Driver.{Request, create, delete, stage, unstage, publish, unpublish, serve}
use csi_driver_smb.NodeOnProxy.{is_error, mounter_call, proxy_after, answer, over_proxy}

module _ (md5 : Text → Text) (b : Bool) (dir file : Text) (asked : List Text) where
  Keeps-mounter_call :
      (a : Answers) (c : Call)
      → is_ordinary c ≡ true
      → Keeps (Spared dir file asked) (mounter_call md5 b a c)
  unfolding mounter_call
  Keeps-mounter_call a (smb_mount source target fs options sensitive volume_id) o =
      Keeps-bind _ _
        (Keeps-smb_mount dir file asked md5 b a source target volume_id options sensitive)
        λ _. Keeps-pure false
  Keeps-mounter_call a (smb_unmount target volume_id) o = cc
  Keeps-mounter_call a (proxy_rmdir path) o =
      Keeps-bind _ _ (Keeps-remove_dir dir file asked a path) λ _. Keeps-pure false
  Keeps-mounter_call a (proxy_exists path) o = Keeps-exists_path dir file asked a path
  Keeps-mounter_call a (is_likely_not_mount_point path) o =
      Keeps-is_likely_not_mount_point dir file asked a path
  Keeps-mounter_call a (unmount path) o =
      Keeps-bind _ _ (Keeps-remove_dir dir file asked a path) λ _. Keeps-pure false
  Keeps-mounter_call a (mount source target _ _) o =
      Keeps-bind _ _ (Keeps-link dir file asked a source target) λ _. Keeps-pure false
  Keeps-mounter_call a _ o = Keeps-pure false

  module _ (answers : Trace → Call → Answers) where
    abbrev Q : List Text → World → Type 0
    Q held w = Spared dir file asked (proxy_after md5 b answers w.trace)

    Guarded-Spared : (cfg : Config) → Guarded cfg Q
    unfolding proxy_after mounter_call pure
    Guarded-Spared cfg = record {
      borne = record {
        ordinary = λ held c w o h. (Keeps-mounter_call (answers w.trace c) c o).after _ h;
        link_removed = λ held name w h. h;
        link_renamed = λ held from name w h. h;
        handed_over = λ held f w h. h;
      };
      acquired = λ held k w free h. h;
      released = λ held k w h. h;
    }

    Unmounts-Spared :
        (volume_id : Text) → text_eq (get_md5 md5 volume_id) file ≡ false → Unmounts Q volume_id
    unfolding proxy_after mounter_call
    Unmounts-Spared volume_id other held target w h =
        (Keeps-bind _ _ (Keeps-smb_unmount dir file asked md5 b _ target volume_id other)
            λ _. Keeps-pure false).after
          _ h

module _ (md5 : Text → Text) (volume : Text) where
  -- the requests of the node service, but for the unstaging of this volume, or of one whose id has the
  -- same hash
  abbrev pub spares : Request → Bool
  spares (create _) = false
  spares (delete _) = false
  spares (stage _) = true
  spares (unstage req) = not (text_eq (get_md5 md5 req.volume_id) (get_md5 md5 volume))
  spares (publish _) = true
  spares (unpublish _) = true

  -- what the node goes on to do: it serves such requests, and mounts that were still running end
  pub data Onward (env : Env) (cfg : Config) (w : World) : World → Type 0 where
    here : Onward env cfg w w
    served :
        {t : World}
        → Onward env cfg w t
        → (req : Request) → spares req ≡ true
        → Onward env cfg w (serve env cfg req t)
    finished :
        {t : World}
        → Onward env cfg w t
        → (f : InFlight) → Onward env cfg w (finish_mount env cfg f t).1

  module _ (b : Bool) (answers : Trace → Call → Answers) (env : Env) (cfg : Config) (dir : Text)
      (asked : List Text) where
    abbrev R : World → Type 0
    R w = Spared dir (get_md5 md5 volume) asked (proxy_after md5 b answers w.trace)

    guarded : Guarded cfg (λ held. R)
    guarded = Guarded-Spared md5 b dir (get_md5 md5 volume) asked answers cfg

    serve-Spared : (req : Request) (w : World) → spares req ≡ true → R w → R (serve env cfg req w)
    unfolding serve
    serve-Spared (create _) w s h = cc
    serve-Spared (delete _) w s h = cc
    serve-Spared (stage req) w s h = (Keeps-node_stage_volume env cfg guarded [] req).after w h
    serve-Spared (unstage req) w s h =
        (Keeps-node_unstage_volume env cfg guarded [] req (
            Unmounts-Spared md5 b dir (get_md5 md5 volume) asked answers req.volume_id
              (ground arith))).after
          w h
    serve-Spared (publish req) w s h = (Keeps-node_publish_volume env cfg guarded [] req).after w h
    serve-Spared (unpublish req) w s h =
        (Keeps-node_unpublish_volume env cfg guarded [] req).after w h

    finish_mount-Spared : (f : InFlight) (w : World) → R w → R (finish_mount env cfg f w).1
    unfolding finish_mount finally release_lock end_in_flight ◌>>=◌
    finish_mount-Spared f w h =
        (Keeps-mount_volume env (guarded.borne.ordinary []) cfg.windows f.source f.target
            (codes "cifs") f.options f.sensitive f.volume_id).after
          w h

    Onward-Spared : (w t : World) → Onward env cfg w t → R w → R t
    Onward-Spared w t here h = h
    Onward-Spared w t (served {t = u} o req s) h = serve-Spared req u s (Onward-Spared w u o h)
    Onward-Spared w t (finished {t = u} o f) h = finish_mount-Spared f u (Onward-Spared w u o h)

-- what is done with a result leaves the state alone, and its error stays
continue-pure :
    {S A : Type 0} (b : Bool) (r : Result OsError A) (s : S)
    → ((continue r (λ _. pure b) s).1 ≡ s)
      × (is_error (continue r (λ _. pure b) s).0 ≡ none → (x : A) × (r ≡ ok x))
unfolding pure is_error
continue-pure b (ok x) s = (refl, λ h. (x, refl))
continue-pure b (err _) s = (refl, λ h. cc)

module _ (md5 : Text → Text) (answers : Trace → Call → Answers) (env : Env) (cfg : Config) where
  -- a mount that succeeded has left its reference
  mounted-Spared :
      (source target fs volume : Text) (options sensitive : List Text) (calls : Trace)
      → (over_proxy md5 true answers env).error calls
          (smb_mount source target fs options sensitive volume)
        ≡ none
      → let c = smb_mount source target fs options sensitive volume in
        let after = proxy_after md5 true answers (c ∷ calls) in
        (mapping : Text) × (mapping_or_error (remote_source (answers calls c).resolved source)
          ≡ ok mapping)
        × Spared (reference_dir mapping) (get_md5 md5 volume) (removals after.calls) after
  unfolding over_proxy proxy_after mounter_call answer ◌>>=◌ pure is_error
  mounted-Spared source target fs volume options sensitive calls e =
      let c = smb_mount source target fs options sensitive volume in
      let a = answers calls c in
      let p = proxy_after md5 true answers calls in
      let run = CsiProxy.smb_mount md5 true a source target options sensitive volume p in
      let after = proxy_after md5 true answers (c ∷ calls) in
      let (same, succeeds) = continue-pure false run.0 run.1 in
      let r =
        smb_mount-Referenced md5 a source target volume options sensitive p run.1
          (ap (λ x. (x, run.1)) (succeeds e).1) in
      (
        r.mapping,
        r.mapped,
        record {
          held =
              subst
                (λ q.
                  has_reference (reference_dir r.mapping) (get_md5 md5 volume) q.references ≡ true)
                (sym same) r.held;
          since = [];
          grown = refl;
          elsewhere = tt;
        },
      )

  -- From the state that a successful mount of a volume leaves, with mappings to be removed at the
  -- unmount: while the node stages, publishes and unpublishes any volumes, unstages only ones whose ids
  -- have another hash in lower case, and mounts that were still running end, whatever csi-proxy and the other calls answer, the volume keeps
  -- its reference, and csi-proxy is asked for the removal of no mapping whose references are in the
  -- same directory.
  pub over_proxy-Spared :
      (w t : World) (source target fs volume : Text) (options sensitive : List Text) (calls : Trace)
      → w.trace ≡ smb_mount source target fs options sensitive volume ∷ calls
      → (over_proxy md5 true answers env).error calls
          (smb_mount source target fs options sensitive volume)
        ≡ none
      → Onward md5 volume (over_proxy md5 true answers env) cfg w t
      → let a = answers calls (smb_mount source target fs options sensitive volume) in
        (mapping : Text) × (mapping_or_error (remote_source a.resolved source) ≡ ok mapping)
        × Spared
            (reference_dir mapping)
            (get_md5 md5 volume)
            (removals (proxy_after md5 true answers w.trace).calls)
            (proxy_after md5 true answers t.trace)
  over_proxy-Spared w t source target fs volume options sensitive calls last e onward =
      let (mapping, mapped, spared) =
        mounted-Spared source target fs volume options sensitive calls e in
      let after = proxy_after md5 true answers in
      let asked = removals (after w.trace).calls in
      (
        mapping,
        mapped,
        Onward-Spared md5 volume true answers (over_proxy md5 true answers env) cfg
            (reference_dir mapping) asked w t onward
            (subst
              (λ tr.
                Spared (reference_dir mapping) (get_md5 md5 volume) (removals (after tr).calls)
                  (after tr))
              (sym last) spared),
      )
