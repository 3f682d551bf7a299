-- ===== src/Node/Mounter/Kept.antt =====
-- The functions on mount points make ordinary calls only.
use csi_driver_smb.Base.{◌≡◌, Bool, true, false, Option, none, some, List, [], ◌∷◌}
use csi_driver_smb.Text.{Text}
use csi_driver_smb.Exec.Keeps.{Keeps, Keeps-bind, keeps_rules}
use csi_driver_smb.World.{
  OsError, not_exist, exist, corrupted, end_of_file, other, Call, smb_unmount, Env, World, note,
}
use csi_driver_smb.Invariant.{is_ordinary, call_rules}
use csi_driver_smb.Node.Mounter.{
  is_corrupted_dir, not_mount_point, not_listed, read_after_open, unmount_invalid, make_dir,
  mounted_or_made, ensure_mount_point, write_line, write_lines, mount_linux, mount_volume,
  cleanup_smb_mount_point, cleanup_publish_point, remove_dir, prepare_path,
}

module _ (env : Env) {P : World → Type 0}
    (bears : (c : Call) (w : World) → is_ordinary c ≡ true → P w → P (note c w)) where
  Keeps-is_corrupted_dir : (dir : Text) → Keeps P (is_corrupted_dir env dir)
  unfolding is_corrupted_dir
  Keeps-is_corrupted_dir dir = search (keeps_rules, call_rules)

  Keeps-not_mount_point :
      (target : Text) (l : Option OsError × Bool) → Keeps P (not_mount_point env target l)
  unfolding not_mount_point
  Keeps-not_mount_point target (none, b) = search keeps_rules
  Keeps-not_mount_point target (some not_exist, b) = search keeps_rules
  Keeps-not_mount_point target (some exist, b) = search (keeps_rules, Keeps-is_corrupted_dir)
  Keeps-not_mount_point target (some corrupted, b) = search (keeps_rules, Keeps-is_corrupted_dir)
  Keeps-not_mount_point target (some end_of_file, b) = search (keeps_rules, Keeps-is_corrupted_dir)
  Keeps-not_mount_point target (some other, b) = search (keeps_rules, Keeps-is_corrupted_dir)

  Keeps-not_listed :
      (windows : Bool) (target : Text) (b : Bool) → Keeps P (not_listed env windows target b)
  unfolding not_listed
  Keeps-not_listed true target b = search keeps_rules
  Keeps-not_listed false target b = search (keeps_rules, call_rules)

  Keeps-read_after_open :
      (target : Text) (o : Option OsError) → Keeps P (read_after_open env target o)
  unfolding read_after_open
  Keeps-read_after_open target none = search (keeps_rules, call_rules)
  Keeps-read_after_open target (some e) = search keeps_rules

  Keeps-unmount_invalid :
      (target : Text) (o : Option OsError) → Keeps P (unmount_invalid env target o)
  unfolding unmount_invalid
  Keeps-unmount_invalid target none = search keeps_rules
  Keeps-unmount_invalid target (some e) = search (keeps_rules, call_rules)

  pub Keeps-make_dir : (path : Text) → Keeps P (make_dir env path)
  unfolding make_dir
  Keeps-make_dir path = search (keeps_rules, call_rules)

  Keeps-mounted_or_made : (target : Text) (b : Bool) → Keeps P (mounted_or_made env target b)
  unfolding mounted_or_made
  Keeps-mounted_or_made target true = search (keeps_rules, Keeps-make_dir)
  Keeps-mounted_or_made target false =
      search (keeps_rules, call_rules, Keeps-read_after_open, Keeps-unmount_invalid)

  pub Keeps-ensure_mount_point :
      (windows : Bool) (target : Text) → Keeps P (ensure_mount_point env windows target)
  unfolding ensure_mount_point
  Keeps-ensure_mount_point windows target =
      search
        (keeps_rules, call_rules, Keeps-not_mount_point, Keeps-not_listed, Keeps-mounted_or_made)

  Keeps-write_line : (file o : Text) → Keeps P (write_line env file o)
  unfolding write_line
  Keeps-write_line file o = search (keeps_rules, call_rules)

  pub Keeps-write_lines :
      (file : Text) (options : List Text) → Keeps P (write_lines env file options)
  unfolding write_lines
  Keeps-write_lines file [] = search keeps_rules
  Keeps-write_lines file (o ∷ options) =
      Keeps-bind (write_line env file o) (λ _. write_lines env file options)
        (Keeps-write_line file o) (λ _. Keeps-write_lines file options)

  Keeps-mount_linux :
      (source target fs_type : Text) (options sensitive : List Text)
      → Keeps P (mount_linux env source target fs_type options sensitive)
  unfolding mount_linux
  Keeps-mount_linux source target fs_type options sensitive =
      search (keeps_rules, call_rules, Keeps-write_lines) depth 9

  pub Keeps-mount_volume :
      (windows : Bool) (source target fs_type : Text) (options sensitive : List Text)
      (volume_id : Text)
      → Keeps P (mount_volume env windows source target fs_type options sensitive volume_id)
  unfolding mount_volume
  Keeps-mount_volume true source target fs_type options sensitive volume_id =
      search (keeps_rules, call_rules)
  Keeps-mount_volume false source target fs_type options sensitive volume_id =
      Keeps-mount_linux source target fs_type options sensitive

  pub Keeps-cleanup_smb_mount_point :
      (windows : Bool) (target volume_id : Text)
      → ((w : World) → P w → P (note (smb_unmount target volume_id) w))
      → Keeps P (cleanup_smb_mount_point env windows target volume_id)
  unfolding cleanup_smb_mount_point
  Keeps-cleanup_smb_mount_point true target volume_id unmounted = search (keeps_rules, call_rules)
  Keeps-cleanup_smb_mount_point false target volume_id unmounted = search (keeps_rules, call_rules)

  pub Keeps-cleanup_publish_point :
      (windows : Bool) (target : Text) → Keeps P (cleanup_publish_point env windows target)
  unfolding cleanup_publish_point
  Keeps-cleanup_publish_point true target = search (keeps_rules, call_rules)
  Keeps-cleanup_publish_point false target = search (keeps_rules, call_rules)

  Keeps-remove_dir : (path : Text) → Keeps P (remove_dir env path)
  unfolding remove_dir
  Keeps-remove_dir path = search (keeps_rules, call_rules) depth 9

  pub Keeps-prepare_path : (windows : Bool) (path : Text) → Keeps P (prepare_path env windows path)
  unfolding prepare_path
  Keeps-prepare_path true path = Keeps-remove_dir path
  Keeps-prepare_path false path = search keeps_rules
