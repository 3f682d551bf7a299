-- ===== src/HostProcess/Sharing.antt =====
-- What the search for another mount of the same share finds.
use csi_driver_smb.Base.{
  ◌≡◌, refl, ◌∙◌, Bool, true, false, not, ◌&&◌, ◌||◌, Bool-cases, inl, inr, Option, none, some,
  List, [], ◌∷◌, any, is_empty, if◌then◌else◌, arith,
}
use csi_driver_smb.Text.{Text, text_eq, equal_fold, trim_space}
use csi_driver_smb.FilePath.OnWindows.{clean_on_drive}
use csi_driver_smb.Result.{ok}
use csi_driver_smb.Exec.{pure, raise, check, ◌>>=◌}
use csi_driver_smb.World.{OsError}
use csi_driver_smb.HostProcess.Calls.{
  MachineCall, lstat, read_link, read_dir, mkdir_all, remove_all, remove, symlink, get_mapping,
  remove_mapping, test_path, new_mapping, DirEntry, Machine, Machined, ask_text, ask_link, tried,
}
use csi_driver_smb.HostProcess.Mappings.{
  global_mount_path, get_remote_server_from_target, links_to, duplicates, any_duplicates,
}
use csi_driver_smb.HostProcess.{driver_global_mount_path}

-- the paths whose mapping PowerShell was asked to remove
abbrev pub removals : List MachineCall → List Text
removals [] = []
removals (remove_mapping remote ∷ cs) = remote ∷ removals cs
removals (lstat _ ∷ cs) = removals cs
removals (read_link _ ∷ cs) = removals cs
removals (read_dir _ ∷ cs) = removals cs
removals (mkdir_all _ ∷ cs) = removals cs
removals (remove_all _ ∷ cs) = removals cs
removals (remove _ ∷ cs) = removals cs
removals (symlink _ _ ∷ cs) = removals cs
removals (get_mapping _ ∷ cs) = removals cs
removals (test_path _ ∷ cs) = removals cs
removals (new_mapping _ _ _ ∷ cs) = removals cs

abbrev pub answers : Option OsError → Bool
answers none = true
answers (some _) = false

-- An action that answers with `b`, whatever was called before, and asks for no removal.
pub record Answers (b : Bool) (m : Machined Bool) : Type 0 where
  pub result : (cs : List MachineCall) → (m cs).0 ≡ ok b
  pub same : (cs : List MachineCall) → removals (m cs).1 ≡ removals cs

Answers-pure : (b : Bool) → Answers b (pure b)
unfolding pure
Answers-pure b = record { result = λ cs. refl; same = λ cs. refl }

Answers-or :
    (b c : Bool) (m n : Machined Bool)
    → Answers b m
    → Answers c n
    → Answers (b || c) (do x ← m; if x then pure true else n)
unfolding ◌>>=◌ pure
Answers-or b c m n hm hn = record {
  result = λ cs. elim (Bool-cases b) [
    | inl e ↦ rw (hm.result cs, e) refl
    | inr e ↦ rw (hm.result cs, e) (hn.result (m cs).1)
  ];
  same = λ cs. elim (Bool-cases b) [
    | inl e ↦ rw (hm.result cs, e) (hm.same cs)
    | inr e ↦ rw (hm.result cs, e) (hn.same (m cs).1 ∙ hm.same cs)
  ];
}

pub Answers-bind :
    {A : Type 0} (b : Bool) (m : Machined Bool) (n : Bool → Machined A) (cs : List MachineCall)
    → Answers b m
    → (m >>= n) cs ≡ n b (m cs).1
unfolding ◌>>=◌
Answers-bind b m n cs h = rw (h.result cs) refl

module _ (a : Machine) where
  -- a link at this path that points to the remote server
  pub points_to : Text → Text → Bool
  points_to path remote_server =
      answers (a.error (lstat path))
      && a.is_link (lstat path)
      && answers (a.error (read_link path))
      && not (is_empty (a.text (read_link path)))
      && text_eq (trim_space (a.text (read_link path))) remote_server

  -- another mount of the remote server below the directory of the staged volumes
  pub shares : Text → Text → DirEntry → Bool
  unfolding points_to
  shares mount remote_server file =
      let path = global_mount_path driver_global_mount_path file in
      file.is_dir
      && not (equal_fold (clean_on_drive path) (clean_on_drive mount))
      && points_to path remote_server

  Answers-links_to :
      (path remote_server : Text)
      → Answers (points_to path remote_server) (links_to a path remote_server)
  unfolding points_to links_to tried ask_link ask_text get_remote_server_from_target check pure
      raise ◌>>=◌
  Answers-links_to path remote_server = record {
    result = λ cs. ground arith;
    same = λ cs. ground arith;
  }

  Answers-duplicates :
      (mount remote_server : Text) (file : DirEntry)
      → Answers
          (shares mount remote_server file)
          (duplicates a driver_global_mount_path mount remote_server file)
  unfolding shares duplicates equal_fold clean_on_drive global_mount_path
  Answers-duplicates mount remote_server file =
      let path = global_mount_path driver_global_mount_path file in
      elim (Bool-cases file.is_dir) [
        | inr d ↦ rw d (Answers-pure false)
        | inl d ↦ elim (Bool-cases (equal_fold (clean_on_drive path) (clean_on_drive mount))) [
          | inl e ↦ rw (d, e) (Answers-pure false)
          | inr e ↦ rw (d, e) (Answers-links_to path remote_server)
        ]
      ]

  pub Answers-any_duplicates :
      (mount remote_server : Text) (files : List DirEntry)
      → Answers
          (any (shares mount remote_server) files)
          (any_duplicates a driver_global_mount_path mount remote_server files)
  unfolding any_duplicates
  Answers-any_duplicates mount remote_server [] = Answers-pure false
  Answers-any_duplicates mount remote_server (file ∷ files) =
      Answers-or _ _ _ _ (Answers-duplicates mount remote_server file)
        (Answers-any_duplicates mount remote_server files)
