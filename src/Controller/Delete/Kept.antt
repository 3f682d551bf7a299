-- ===== src/Controller/Delete/Kept.antt =====
-- DeleteVolume keeps every property that bears the calls and the locks of the node service, and the
-- removal and the archiving of the volume's own directory.
use csi_driver_smb.Base.{◌≡◌, refl, Option, none, some, List, ◌∷◌}
use csi_driver_smb.Text.{Text}
use csi_driver_smb.Result.{Result, Reason, ok, err}
use csi_driver_smb.Exec.Keeps.{Keeps, keeps_rules}
use csi_driver_smb.World.{OsError, Call, Trace, Env, World, note, remove_all, rename}
use csi_driver_smb.Config.{Config}
use csi_driver_smb.Invariant.{Closed, call_rules}
use csi_driver_smb.Volume.Defs.{SmbVolume, smb_vol_from_id, internal_volume_path}
use csi_driver_smb.Node.Stage.Kept.{Keeps-locked, released_after}
use csi_driver_smb.Controller.Mount.Kept.{Keeps-mounted_for}
use csi_driver_smb.Controller.Delete.{
  DeleteRequest, archived_path, make_parent, remove_archived, archive_sub_dir, open_modes,
  delete_sub_dir, record_deletion, dispose, delete_locked, delete_parsed, delete_volume,
}

-- the removal and the archiving of a volume's directory
pub record Bears (cfg : Config) (P : List Text → World → Type 0) (vol : SmbVolume) : Type 0 where
  pub removed :
      (held : List Text) (w : World)
      → P held w
      → P held (note (remove_all (internal_volume_path cfg.working_mount_dir vol)) w)
  pub archive_removed :
      (held : List Text) (w : World)
      → P held w
      → P held (note (remove_all (archived_path cfg.working_mount_dir vol)) w)
  pub archived :
      (held : List Text) (w : World)
      → P held w
      → P held (
          note
            (rename
              (internal_volume_path cfg.working_mount_dir vol)
              (archived_path cfg.working_mount_dir vol))
            w)

module _ (env : Env) (cfg : Config) {P : List Text → World → Type 0} (closed : Closed cfg P) where
  module _ (vol : SmbVolume) (bears : Bears cfg P vol) (held : List Text) where
    pub Keeps-make_parent : Keeps (P held) (make_parent env cfg vol)
    unfolding make_parent
    Keeps-make_parent = search (keeps_rules, call_rules, closed.guarded.borne.ordinary held) depth 9

    pub Keeps-remove_archived : Keeps (P held) (remove_archived env cfg vol)
    unfolding remove_archived
    Keeps-remove_archived = search (keeps_rules, call_rules, bears.archive_removed held) depth 9

    Keeps-archive_sub_dir : Keeps (P held) (archive_sub_dir env cfg vol)
    unfolding archive_sub_dir
    Keeps-archive_sub_dir =
        search
          (keeps_rules, call_rules, bears.archived held, Keeps-make_parent, Keeps-remove_archived)
          depth 9

    pub Keeps-open_modes :
        (path : Text) (o : Option OsError) → Keeps (P held) (open_modes env cfg path o)
    unfolding open_modes
    Keeps-open_modes path none =
        search (keeps_rules, call_rules, closed.guarded.borne.ordinary held)
    Keeps-open_modes path (some e) = search keeps_rules

    Keeps-delete_sub_dir : Keeps (P held) (delete_sub_dir env cfg vol)
    unfolding delete_sub_dir
    Keeps-delete_sub_dir =
        search
          (
            keeps_rules,
            call_rules,
            closed.guarded.borne.ordinary held,
            bears.removed held,
            Keeps-open_modes,
          )
          depth 9

    pub Keeps-record_deletion : (id : Text) → Keeps (P held) (record_deletion env cfg id)
    unfolding record_deletion
    Keeps-record_deletion id = search (keeps_rules, call_rules, closed.guarded.borne.ordinary held)

    Keeps-dispose :
        (policy : Text) (req : DeleteRequest) → Keeps (P held) (dispose env cfg vol policy req)
    unfolding dispose
    Keeps-dispose policy req =
        search
          (
            keeps_rules,
            Keeps-mounted_for env cfg closed held,
            Keeps-archive_sub_dir,
            Keeps-delete_sub_dir,
            Keeps-record_deletion,
          )
          depth 9

    Keeps-delete_locked : (req : DeleteRequest) → Keeps (P held) (delete_locked env cfg vol req)
    unfolding delete_locked
    Keeps-delete_locked req =
        search
          (
            keeps_rules,
            call_rules,
            closed.guarded.borne.ordinary held,
            Keeps-dispose,
            Keeps-record_deletion,
          )
          depth 9

  Keeps-delete_parsed :
      (req : DeleteRequest) (r : Result Reason SmbVolume)
      → ((vol : SmbVolume) → r ≡ ok vol → Bears cfg P vol)
      → (held : List Text) → Keeps (P held) (delete_parsed env cfg req r)
  unfolding delete_parsed
  Keeps-delete_parsed req (err e) bears held = search keeps_rules
  Keeps-delete_parsed req (ok vol) bears held =
      let b = bears vol refl in
      Keeps-locked cfg closed.guarded held req.volume_id _ _ (
        released_after env cfg closed.guarded held req.volume_id (delete_locked env cfg vol req)
          (Keeps-delete_locked vol b (req.volume_id ∷ held) req))

  pub Keeps-delete_volume :
      (req : DeleteRequest)
      → ((vol : SmbVolume) → smb_vol_from_id req.volume_id ≡ ok vol → Bears cfg P vol)
      → (held : List Text) → Keeps (P held) (delete_volume env cfg req)
  unfolding delete_volume
  Keeps-delete_volume req bears held = search (keeps_rules, Keeps-delete_parsed)

-- What every call keeps of the trace.
pub Bears-trace :
    (cfg : Config) (T : Trace → Type 0) (vol : SmbVolume)
    → ((c : Call) (tr : Trace) → T tr → T (c ∷ tr))
    → Bears cfg (λ held w. T w.trace) vol
Bears-trace cfg T vol grows = record {
  removed = λ held w h. grows _ w.trace h;
  archive_removed = λ held w h. grows _ w.trace h;
  archived = λ held w h. grows _ w.trace h;
}
