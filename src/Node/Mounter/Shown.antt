-- ===== src/Node/Mounter/Shown.antt =====
-- A Mount that succeeds has mounted the share.
use csi_driver_smb.Base.{
  ◌≡◌, ◌⊎◌, refl, ap, inl, inr, Bool, true, false, Option-cases, none, some, List, [], ◌∷◌, ◌++◌,
}
use csi_driver_smb.Text.{Text}
use csi_driver_smb.Exec.{raise, pure, ◌>>=◌}
use csi_driver_smb.Exec.Keeps.{keeps_rules}
use csi_driver_smb.Exec.Ensures.{Ensures, Ensures-then, Ensures-if, Ensures-finally}
use csi_driver_smb.Options.{needs_credentials_option}
use csi_driver_smb.World.{
  end_of_file, Call, smb_mount, mount_sensitive, read_dir_first, Trace, Env, World, note, perform,
  check_os,
}
use csi_driver_smb.Invariant.{
  is_ordinary, Extends, Extends-grows, Happened, Happened-grows, call_rules, Keeps-check_os,
}
use csi_driver_smb.Node.Mounter.{mount_linux, mount_volume}
use csi_driver_smb.Node.Mounter.Kept.{Keeps-write_lines}

-- The call mounted the source at the target, or read the target as a mount point that was there.
pub data Shows (env : Env) (source target : Text) (tr : Trace) (c : Call) : Type 0 where
  on_windows :
      (fs : Text) (options sensitive : List Text) (volume_id : Text)
      → c ≡ smb_mount source target fs options sensitive volume_id
      → env.error tr c ≡ none
      → Shows env source target tr c
  on_linux :
      (fs : Text) (options sensitive : List Text)
      → c ≡ mount_sensitive source target fs options sensitive
      → env.error tr c ≡ none
      → Shows env source target tr c
  before :
      c ≡ read_dir_first target
      → (env.error tr c ≡ none) ⊎ (env.error tr c ≡ some end_of_file)
      → Shows env source target tr c

-- Since `start` there was such a call.
abbrev pub Shown : Env → Text → Text → Trace → Trace → Type 0
Shown env source target start tr =
    (c : Call) × Happened (λ t. Shows env source target t c) c start tr

pub Shown-grows :
    (env : Env) (source target : Text) (start : Trace) (c : Call) (tr : Trace)
    → Shown env source target start tr
    → Shown env source target start (c ∷ tr)
Shown-grows env source target start c tr (d, h) =
    (d, Happened-grows (λ t. Shows env source target t d) d start c tr h)

abbrev pub Since : Trace → World → Type 0
Since start w = Extends start w.trace

module _ (env : Env) (start : Trace) (source target : Text) where
  abbrev pub IsShown : World → Type 0
  IsShown w = Shown env source target start w.trace

  -- a call whose error ends the action
  Ensures-Shows :
      (c : Call)
      → ((tr : Trace) → env.error tr c ≡ none → Shows env source target tr c)
      → Ensures (Since start) IsShown (do e ← perform env c; check_os e)
  unfolding perform check_os ◌>>=◌ pure raise
  Ensures-Shows c shows = record {
    after = λ w (mid, e). elim (Option-cases (env.error w.trace c)) [
      | inl h ↦ rw h (c, ([], mid, ap (λ t. c ∷ t) e, shows (mid ++ start) (rw e at h)))
      | inr (x, h) ↦ rw h tt
    ];
  }

  Since-bears :
      (c : Call) (w : World) → is_ordinary c ≡ true → Since start w → Since start (note c w)
  Since-bears c w o h = Extends-grows start c w.trace h

  IsShown-bears : (c : Call) (w : World) → is_ordinary c ≡ true → IsShown w → IsShown (note c w)
  IsShown-bears c w o h = Shown-grows env source target start c w.trace h

  Ensures-mount_sensitive :
      (fs : Text) (options sensitive : List Text)
      → Ensures
          (Since start)
          IsShown
          (do e ← perform env (mount_sensitive source target fs options sensitive); check_os e)
  Ensures-mount_sensitive fs options sensitive =
      Ensures-Shows _ λ tr h. on_linux fs options sensitive refl h

  Ensures-mount_linux :
      (fs : Text) (options sensitive : List Text)
      → Ensures (Since start) IsShown (mount_linux env source target fs options sensitive)
  unfolding mount_linux
  Ensures-mount_linux fs options sensitive =
      Ensures-if (needs_credentials_option sensitive) _ _
        (Ensures-then _ _ (search (keeps_rules, call_rules, Since-bears)) λ file.
          Ensures-then _ _ (Keeps-check_os _) λ _.
            Ensures-finally _ _
              (Ensures-then _ _ (Keeps-write_lines env Since-bears file.1 sensitive)
                λ _. Ensures-mount_sensitive fs options _)
              (search (keeps_rules, call_rules, IsShown-bears)))
        (Ensures-mount_sensitive fs options sensitive)

  pub Ensures-mount_volume :
      (windows : Bool) (fs : Text) (options sensitive : List Text) (volume_id : Text)
      → Ensures
          (Since start)
          IsShown
          (mount_volume env windows source target fs options sensitive volume_id)
  unfolding mount_volume
  Ensures-mount_volume true fs options sensitive volume_id =
      Ensures-Shows _ λ tr h. on_windows fs options sensitive volume_id refl h
  Ensures-mount_volume false fs options sensitive volume_id =
      Ensures-mount_linux fs options sensitive
