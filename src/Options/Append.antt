-- ===== src/Options/Append.antt =====
-- Laws of the mount options.
use csi_driver_smb.Base.{
  ◌≡◌, refl, ◌∙◌, true, not, ◌&&◌, ◌||◌, any, List, [], ◌∷◌, ◌++◌, All, All-map, arith, Bool-cases,
  inl, inr, append-nil,
}
use csi_driver_smb.Text.{Text, codes, text_eq, has_prefix, contains}
use csi_driver_smb.Text.Search.{has_prefix-append, text_eq_refl}
use csi_driver_smb.Dict.{Dict}
use csi_driver_smb.Options.{
  option_text, extra_option, is_included, missing_options, append_mount_options,
  contains_special_character, needs_credentials_option, credential_options,
}

is_included-append :
    (a b : List Text) (k : Text) → is_included (a ++ b) k ≡ (is_included a k || is_included b k)
unfolding is_included
is_included-append [] b k = refl
is_included-append (o ∷ a) b k = ground (arith, is_included-append a b k)

has_prefix-extra_option : (k v : Text) → has_prefix (extra_option (k, v)) k ≡ true
unfolding extra_option
has_prefix-extra_option k [] =
    (let h : has_prefix (k ++ []) k ≡ true = has_prefix-append k [] in rw append-nil at h)
has_prefix-extra_option k (c ∷ v) = has_prefix-append k (b'=' ∷ c ∷ v)

-- every key is there once the missing ones are added
missing_options-included :
    (options : List Text) (extra : Dict)
    → All
        (λ e. (is_included options e.0 || is_included (missing_options options extra) e.0) ≡ true)
        extra
unfolding missing_options is_included
missing_options-included options [] = tt
missing_options-included options ((k, v) ∷ extra) = (
  ground (arith, has_prefix-extra_option k v),
  All-map extra (λ e h. ground arith) (missing_options-included options extra),
)

-- Some extra option whose key begins none of the given ones is spelled so.
abbrev pub Asked : List Text → Dict → Text → Type 0
Asked options extra o =
    any (λ e. not (is_included options e.0) && text_eq (extra_option e) o) extra ≡ true

-- what is added was asked for, and does not come behind an option of the user with the same key
missing_options-Asked :
    (options : List Text) (extra : Dict) → All (Asked options extra) (missing_options options extra)
unfolding missing_options
missing_options-Asked options [] = tt
missing_options-Asked options ((k, v) ∷ extra) =
    let later =
      All-map {Q = Asked options ((k, v) ∷ extra)} (missing_options options extra)
        (λ o h. ground (arith, h)) (missing_options-Asked options extra) in
    elim (Bool-cases (is_included options k)) [
      | inl e ↦ rw e later
      | inr e ↦ rw e (ground (arith, e, text_eq_refl (extra_option (k, v))), later)
    ]

-- The options `all` are the given ones with the extra ones behind them that are missing.
pub record Appended (options : List Text) (extra : Dict) (all : List Text) : Type 0 where
  pub added : List Text
  pub behind : all ≡ options ++ added
  pub asked : All (Asked options extra) added
  pub included : All (λ e. is_included all e.0 ≡ true) extra

is_included-append-missing_options :
    (options : List Text) (extra : Dict)
    → All (λ e. is_included (options ++ missing_options options extra) e.0 ≡ true) extra
is_included-append-missing_options options extra =
    All-map extra (λ e h. is_included-append options (missing_options options extra) e.0 ∙ h)
      (missing_options-included options extra)

-- AppendMountOptions leaves the given options first and as they are; what it adds are extra options
-- whose keys begin no given option, so a mode that the user has set is not set again behind it; and
-- afterwards every extra key begins some option.
pub append_mount_options-Appended :
    (options : List Text) (extra : Dict)
    → Appended options extra (append_mount_options options extra)
unfolding append_mount_options
append_mount_options-Appended options extra = record {
  added = missing_options options extra;
  behind = refl;
  asked = missing_options-Asked options extra;
  included = is_included-append-missing_options options extra;
}

missing_options-none :
    (options : List Text) (extra : Dict)
    → All (λ e. is_included options e.0 ≡ true) extra
    → missing_options options extra ≡ []
unfolding missing_options
missing_options-none options [] h = refl
missing_options-none options ((k, v) ∷ extra) (hk, h) =
    rw (hk, missing_options-none options extra h) refl

-- Appending the same options again adds nothing: the defaults of a volume are appended once, however
-- often its capability is prepared.
pub append_mount_options-append_mount_options :
    (options : List Text) (extra : Dict)
    → append_mount_options (append_mount_options options extra) extra
      ≡ append_mount_options options extra
unfolding append_mount_options
append_mount_options-append_mount_options options extra =
    rw
      (
        missing_options-none (options ++ missing_options options extra) extra
            (is_included-append-missing_options options extra),
        append-nil,
      )
      refl

contains_special_character-password :
    (p : Text)
    → contains_special_character (option_text (codes "password") p) ≡ contains_special_character p
unfolding contains_special_character contains has_prefix
contains_special_character-password p = refl

-- What NodeStageVolume puts into the sensitive options is what the Linux mounter looks for: it finds
-- the need of a credentials file exactly when the password holds a quote, a backquote or a comma.
pub needs_credentials_option-credential_options :
    (username password : Text)
    → needs_credentials_option (credential_options username password)
      ≡ contains_special_character password
unfolding needs_credentials_option credential_options has_prefix
needs_credentials_option-credential_options u p = elim (Bool-cases (contains_special_character p)) [
  | inl e ↦ rw e (contains_special_character-password p ∙ e)
  | inr e ↦ rw e refl
]
