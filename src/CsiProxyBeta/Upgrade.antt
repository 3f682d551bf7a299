-- ===== src/CsiProxyBeta/Upgrade.antt =====
-- What changes with the v1 API if mappings are not to be removed at the unmount.
use mathlib.Core.List.{map}
use csi_driver_smb.Base.{
  ◌≡◌, refl, sym, subst, Bool, true, false, Option, none, some, inl, inr, List, if◌then◌else◌,
}
use csi_driver_smb.Text.{Text}
use csi_driver_smb.FilePath.OnWindows.{dir_on_drive}
use csi_driver_smb.Result.{Result, ok, err}
use csi_driver_smb.Result.Laws.{Result-cases}
use csi_driver_smb.Exec.{continue, pure, raise, check, ◌>>=◌}
use csi_driver_smb.World.{OsError}
use csi_driver_smb.Refcount.{References, trim_backslash}
use csi_driver_smb.CsiProxy.{
  ProxyCall, Answers, Proxy, Mounter, normalize_windows_path, first_option, windows_source,
  remote_source,
}
use csi_driver_smb.CsiProxy
use csi_driver_smb.CsiProxyBeta.{
  PathContext, BetaCall, path_exists, is_mount_point_request, mkdir, rmdir, link_path,
  new_smb_global_mapping, BetaMounter, ask, ask_flag, exists_path, make_dir, remove_dir, smb_mount,
  smb_unmount,
}

-- the same request of the v1 API, which has no contexts
abbrev pub upgrade : BetaCall → ProxyCall
upgrade (path_exists path) = ProxyCall.path_exists path
upgrade (is_mount_point_request path) = ProxyCall.is_symlink path
upgrade (mkdir _ path) = ProxyCall.mkdir path
upgrade (rmdir _ path) = ProxyCall.rmdir path
upgrade (link_path source target) = ProxyCall.create_symlink source target
upgrade (new_smb_global_mapping target source user password) =
    ProxyCall.new_smb_global_mapping target source user password

-- the state of the v1 mounter that made the same requests
abbrev pub upgraded : References → List BetaCall → Proxy
upgraded refs cs = record { references = refs; calls = map upgrade cs }

-- The same answer, after the same requests.
record Same (refs : References) {A : Type 0} (m : Mounter A) (b : BetaMounter A) : Type 0 where
  result : (cs : List BetaCall) → m (upgraded refs cs) ≡ ((b cs).0, upgraded refs (b cs).1)

module _ (refs : References) where
  Same-pure : {A : Type 0} (x : A) → Same refs (pure x) (pure x)
  unfolding pure
  Same-pure x = record { result = λ cs. refl }

  Same-check : (b : Bool) (e : OsError) → Same refs (check b e) (check b e)
  unfolding check pure raise
  Same-check true e = record { result = λ cs. refl }
  Same-check false e = record { result = λ cs. refl }

  Same-continue :
      {A B : Type 0} (f : A → Mounter B) (g : A → BetaMounter B) (r : Result OsError A)
      (cs : List BetaCall)
      → ((x : A) → Same refs (f x) (g x))
      → continue r f (upgraded refs cs) ≡ ((continue r g cs).0, upgraded refs (continue r g cs).1)
  Same-continue f g (ok x) cs h = (h x).result cs
  Same-continue f g (err e) cs h = refl

  Same-bind :
      {A B : Type 0} (m : Mounter A) (b : BetaMounter A) (f : A → Mounter B) (g : A → BetaMounter B)
      → Same refs m b
      → ((x : A) → Same refs (f x) (g x))
      → Same refs (m >>= f) (b >>= g)
  unfolding ◌>>=◌
  Same-bind m b f g hm hf = record {
    result = λ cs. rw (hm.result cs) (Same-continue f g (b cs).0 (b cs).1 hf);
  }

  Same-if :
      {A : Type 0} (t : Bool) (m n : Mounter A) (b c : BetaMounter A)
      → Same refs m b
      → Same refs n c
      → Same refs (if t then m else n) (if t then b else c)
  Same-if true m n b c hm hn = hm
  Same-if false m n b c hm hn = hn

  Same-ask : (c : BetaCall) (o : Option OsError) → Same refs (CsiProxy.ask (upgrade c) o) (ask c o)
  unfolding CsiProxy.ask ask
  Same-ask c none = record { result = λ cs. refl }
  Same-ask c (some e) = record { result = λ cs. refl }

  -- what is done for references alone comes to nothing
  Same-then_pure :
      (m : Mounter (Unit {0})) (b : BetaMounter (Unit {0}))
      → Same refs m b
      → Same refs (m >>= λ _. pure tt) b
  unfolding ◌>>=◌ pure
  Same-then_pure m b h = record {
    result = λ cs. elim (Result-cases (b cs).0) [
      | inl (_, e) ↦ rw (h.result cs, e) refl
      | inr (_, e) ↦ rw (h.result cs, e) refl
    ];
  }

  Same-pure_then :
      {A B : Type 0} (x : A) (f : A → Mounter B) (b : BetaMounter B)
      → Same refs (f x) b
      → Same refs (pure x >>= f) b
  unfolding ◌>>=◌ pure
  Same-pure_then x f b h = record { result = λ cs. h.result cs }

  module _ (a : Answers) where
    Same-exists_path : (path : Text) → Same refs (CsiProxy.exists_path a path) (exists_path a path)
    unfolding CsiProxy.exists_path CsiProxy.ask_flag exists_path ask_flag
    Same-exists_path path = record { result = λ cs. refl }

    Same-make_dir : (path : Text) → Same refs (CsiProxy.make_dir a path) (make_dir a path)
    unfolding CsiProxy.make_dir make_dir
    Same-make_dir path = Same-ask (mkdir PathContext.plugin _) a.mkdir

    Same-remove_dir : (path : Text) → Same refs (CsiProxy.remove_dir a path) (remove_dir a path)
    unfolding CsiProxy.remove_dir remove_dir
    Same-remove_dir path = Same-ask (rmdir PathContext.pod _) a.rmdir

    Same-smb_mount :
        (md5 : Text → Text) (source target volume : Text) (options sensitive : List Text)
        → trim_backslash (windows_source a.resolved source) ≡ windows_source a.resolved source
        → Same refs
            (CsiProxy.smb_mount md5 false a source target options sensitive volume)
            (smb_mount a source target options sensitive)
    unfolding CsiProxy.smb_mount smb_mount remote_source CsiProxy.add_reference
    Same-smb_mount md5 source target volume options sensitive e =
        Same-bind _ _ _ _ (Same-check _ _) (λ _.
          Same-bind _ _ _ _ (Same-exists_path (dir_on_drive target)) (λ there.
            Same-bind _ _ _ _
              (Same-if there _ _ _ _ (Same-pure tt) (Same-make_dir (dir_on_drive target)))
              (λ _. Same-pure_then tt _ _ (
                Same-then_pure _ _ (
                  subst
                    (λ remote.
                      Same refs
                        (CsiProxy.ask
                          (ProxyCall.new_smb_global_mapping (normalize_windows_path target) remote
                            (first_option options) (first_option sensitive))
                          a.new_mapping)
                        (ask
                          (new_smb_global_mapping (normalize_windows_path target)
                            (windows_source a.resolved source) (first_option options)
                            (first_option sensitive))
                          a.new_mapping))
                    (sym e) (Same-ask _ a.new_mapping))))))

    Same-smb_unmount :
        (md5 : Text → Text) (target volume : Text)
        → Same refs (CsiProxy.smb_unmount md5 false a target volume) (smb_unmount a target)
    unfolding CsiProxy.smb_unmount smb_unmount CsiProxy.drop_linked CsiProxy.drop_reference
        remove_dir
    Same-smb_unmount md5 target volume = elim (Result-cases a.read_link) [
      | inl (_, e) ↦ rw e (Same-pure_then tt _ _ (Same-remove_dir target))
      | inr (_, e) ↦ rw e (Same-pure_then tt _ _ (Same-remove_dir target))
    ]

-- Where mappings are not to be removed at the unmount, the v1 mounter answers as the v1beta mounter
-- and makes the same requests up to their contexts, at a mount whose source does not end with a
-- backslash and at an unmount, and touches no reference.
pub smb_mount-upgrade :
    (md5 : Text → Text) (a : Answers) (source target volume : Text) (options sensitive : List Text)
    (refs : References) (cs : List BetaCall)
    → trim_backslash (windows_source a.resolved source) ≡ windows_source a.resolved source
    → (CsiProxy.smb_mount md5 false a source target options sensitive volume (upgraded refs cs) ≡ (
      (smb_mount a source target options sensitive cs).0,
      upgraded refs (smb_mount a source target options sensitive cs).1,
    ))
      × (CsiProxy.smb_unmount md5 false a target volume (upgraded refs cs)
          ≡ ((smb_unmount a target cs).0, upgraded refs (smb_unmount a target cs).1))
smb_mount-upgrade md5 a source target volume options sensitive refs cs e = (
  (Same-smb_mount refs a md5 source target volume options sensitive e).result cs,
  (Same-smb_unmount refs a md5 target volume).result cs,
)
