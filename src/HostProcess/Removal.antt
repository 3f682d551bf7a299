-- ===== src/HostProcess/Removal.antt =====
-- When the unmount of a host process removes a mapping.
use csi_driver_smb.Base.{
  ◌≡◌, refl, ◌∙◌, Bool, true, false, not, ◌&&◌, ◌||◌, Bool-cases, Option-cases, inl, inr, List, [],
  ◌∷◌, ◌++◌, any, is_empty, if◌then◌else◌,
}
use csi_driver_smb.Text.{Text, trim_space}
use csi_driver_smb.Result.{ok}
use csi_driver_smb.Result.Laws.{Result-cases}
use csi_driver_smb.Exec.{wrap, lift, pure, raise, check, ◌>>=◌}
use csi_driver_smb.Refcount.{trim_backslash}
use csi_driver_smb.CsiProxy.{normalize_windows_path}
use csi_driver_smb.Windows.{validate_path_windows}
use csi_driver_smb.HostProcess.Files.{rmdir, valid_path}
use csi_driver_smb.HostProcess.Calls.{
  MachineCall, read_link, read_dir, Machine, Machined, ask, ask_text, ask_entries, tried,
}
use csi_driver_smb.HostProcess.Mappings.{
  get_remote_server_from_target, check_for_duplicate_smb_mounts, remove_smb_global_mapping,
}
use csi_driver_smb.HostProcess.{driver_global_mount_path, remove_unshared, smb_unmount, remove_dir}
use csi_driver_smb.HostProcess.Sharing.{
  removals, answers, shares, Answers, Answers-bind, Answers-any_duplicates,
}

module _ (a : Machine) where
  -- the mapping of this target's remote server is used by another mount, as far as can be told
  pub in_use : Text → Text → Bool
  in_use target remote_server =
      not (answers (a.error (read_dir driver_global_mount_path)))
      || any (shares a target remote_server) (a.entries (read_dir driver_global_mount_path))

  -- the removals that are to be asked for at the unmount of a target
  pub expected : Text → List Text
  unfolding in_use
  expected target =
      let destination = a.text (read_link target) in
      if answers (a.error (read_link target))
        && not (is_empty destination)
        && not (in_use target (trim_space destination))
      then trim_backslash (trim_space destination) ∷ []
      else []

  Answers-check_for_duplicate_smb_mounts :
      (target remote_server : Text)
      → Answers (in_use target remote_server) (
          tried true
            (check_for_duplicate_smb_mounts a driver_global_mount_path target remote_server))
  unfolding in_use check_for_duplicate_smb_mounts tried ask_entries ◌>>=◌
  Answers-check_for_duplicate_smb_mounts target remote_server =
      let files = a.entries (read_dir driver_global_mount_path) in
      let loop = Answers-any_duplicates a target remote_server files in
      elim (Option-cases (a.error (read_dir driver_global_mount_path))) [
        | inr (_, e) ↦ record { result = λ cs. rw e refl; same = λ cs. rw e refl }
        | inl e ↦ record {
          result = λ cs. rw (e, loop.result (read_dir driver_global_mount_path ∷ cs)) refl;
          same = λ cs. rw e (loop.same (read_dir driver_global_mount_path ∷ cs));
        }
      ]

  remove_dir-removals :
      (path : Text) (cs : List MachineCall) → removals (remove_dir a path cs).1 ≡ removals cs
  unfolding remove_dir rmdir valid_path ask ◌>>=◌ wrap lift
  remove_dir-removals path cs =
      elim (Result-cases (validate_path_windows (normalize_windows_path path))) [
        | inl (_, e) ↦ rw e refl
        | inr (_, e) ↦ rw e refl
      ]

  -- what is done about a mapping, once it is known whether it is shared
  if_shared : Text → Bool → Machined (Unit {0})
  if_shared remote_server shared =
      if shared then pure tt else tried tt (remove_smb_global_mapping a remote_server)

  if_shared-removals :
      (remote_server : Text) (b : Bool) (cs : List MachineCall)
      → ((if_shared remote_server b cs).0 ≡ ok tt)
        × (removals (if_shared remote_server b cs).1
            ≡ (if b then [] else trim_backslash remote_server ∷ []) ++ removals cs)
  unfolding if_shared tried remove_smb_global_mapping ask pure
  if_shared-removals remote_server true cs = (refl, refl)
  if_shared-removals remote_server false cs = (refl, refl)

  remove_unshared-if_shared :
      (target remote_server : Text) (cs : List MachineCall)
      → (calls : List MachineCall) × (removals calls ≡ removals cs)
        × (remove_unshared a target (ok remote_server) cs
            ≡ if_shared remote_server (in_use target remote_server) calls)
  unfolding remove_unshared if_shared
  remove_unshared-if_shared target remote_server cs =
      let told = Answers-check_for_duplicate_smb_mounts target remote_server in
      (
        _,
        told.same cs,
        Answers-bind (in_use target remote_server) _ (if_shared remote_server) cs told,
      )

  remove_unshared-removals :
      (target remote_server : Text) (cs : List MachineCall)
      → ((remove_unshared a target (ok remote_server) cs).0 ≡ ok tt)
        × (removals (remove_unshared a target (ok remote_server) cs).1
            ≡ (if in_use target remote_server then [] else trim_backslash remote_server ∷ [])
              ++ removals cs)
  remove_unshared-removals target remote_server cs =
      let (calls, same, done) = remove_unshared-if_shared target remote_server cs in
      let last = if_shared-removals remote_server (in_use target remote_server) calls in
      rw (done, ← same) last

  -- Unmounting a target asks for the removal of its mapping exactly when the target is a link to a
  -- remote path, the directory of the staged volumes can be listed, and no other link of a staged
  -- volume in it points to the same remote path; it asks for no other removal.
  pub smb_unmount-removals :
      (path : Text) (cs : List MachineCall)
      → removals (smb_unmount a path cs).1 ≡ expected (normalize_windows_path path) ++ removals cs
  unfolding smb_unmount expected get_remote_server_from_target ask_text check pure raise ◌>>=◌
  smb_unmount-removals path cs =
      let target = normalize_windows_path path in
      let link = read_link target in
      let server = trim_space (a.text link) in
      let dropped = remove_unshared-removals target server (link ∷ cs) in
      elim (Option-cases (a.error link)) [
        | inr (_, e) ↦ rw e (remove_dir-removals target (link ∷ cs))
        | inl e ↦ elim (Bool-cases (is_empty (a.text link))) [
          | inl i ↦ rw (e, i) (remove_dir-removals target (link ∷ cs))
          | inr i ↦ elim (Bool-cases (in_use target server)) [
            | inl u ↦ rw (e, i, u, dropped.0) (remove_dir-removals target _ ∙ (rw u at dropped.1))
            | inr u ↦ rw (e, i, u, dropped.0) (remove_dir-removals target _ ∙ (rw u at dropped.1))
          ]
        ]
      ]
