-- ===== src/Options.antt =====
-- Mount options: the helpers of pkg/smb/smb.go, nodeserver.go and smb_common_linux.go.
pub mod Append
use Prim.Native.Nat.{bit_or}
use csi_driver_smb.Base.{
  ℕ, zero, suc, Bool, true, false, not, ◌&&◌, ◌||◌, Option, none, some, List, [], ◌∷◌, ◌++◌,
  if◌then◌else◌, ltb, ◌==◌, is_empty, any,
}
use csi_driver_smb.Base.Int.{ℤ, pos, negsuc}
use csi_driver_smb.Text.{Text, codes, text_eq, has_prefix, contains, trim_prefix, split}
use csi_driver_smb.Strconv.{atoi, parse_int, format}
use csi_driver_smb.Dict.{Dict}
use csi_driver_smb.Names.{username_field, password_field}

unfoldable pub has_guest_mount_options : List Text → Bool
has_guest_mount_options options = any (λ v. text_eq v (codes "guest")) options

unfoldable pub check_gid_present_in_mount_flags : List Text → Bool
check_gid_present_in_mount_flags flags = any (λ f. has_prefix f (codes "gid")) flags

unfoldable pub has_kerberos_mount_option : List Text → Bool
has_kerberos_mount_option flags = any (λ f. has_prefix f (codes "sec=krb5")) flags

-- `none` is an error: no such option, or one whose number does not parse
unfoldable pub get_cred_uid : List Text → Option ℤ
get_cred_uid [] = none
get_cred_uid (flag ∷ flags) =
    if has_prefix flag (codes "cruid=")
    then atoi (trim_prefix flag (codes "cruid="))
    else get_cred_uid flags

-- key=value
abbrev pub option_text : Text → Text → Text
option_text k v = k ++ b'=' ∷ v

pub extra_option : Text × Text → Text
extra_option (k, v) = if is_empty v then k else option_text k v

-- whether some given option begins with the key
unfoldable pub is_included : List Text → Text → Bool
is_included options k = any (λ o. has_prefix o k) options

missing_options : List Text → Dict → List Text
unfolding is_included extra_option
missing_options options [] = []
missing_options options ((k, v) ∷ extra) =
    let rest = missing_options options extra in
    if is_included options k then rest else extra_option (k, v) ∷ rest

-- The extra options are given in the order in which `range` visits them.
unfoldable pub append_mount_options : List Text → Dict → List Text
unfolding missing_options
append_mount_options options extra = options ++ missing_options options extra

-- `v|070` in octal, behind a zero
unfoldable pub enable_group_rwx : Text → Text
enable_group_rwx mode = elim (parse_int mode) [
  | none ↦ mode
  | some v ↦ elim v [ pos n ↦ b'0' ∷ format 8 (bit_or n 0o70) | negsuc _ ↦ mode ]
]

-- the value of an option `flag=value` with one `=` in it
flag_value : Text → List Text → Option Text
flag_value flag (name ∷ value ∷ []) = if text_eq name flag then some value else none
flag_value flag _ = none

-- The flags with the first `flag=mode` raised, and whether there was one. The source writes into the
-- slice that it is given.
unfoldable pub raise_group_rwx_in_mount_flags : List Text → Text → List Text × Bool
unfolding flag_value
raise_group_rwx_in_mount_flags [] flag = ([], false)
raise_group_rwx_in_mount_flags (f ∷ flags) flag =
    let (rest, found) = raise_group_rwx_in_mount_flags flags flag in
    elim (flag_value flag (split f b'=')) [
      | none ↦ (f ∷ rest, found)
      | some mode ↦ (option_text flag (enable_group_rwx mode) ∷ flags, true)
    ]

unfoldable pub contains_special_character : Text → Bool
contains_special_character word =
    contains word (codes "\"") || (contains word (codes "`") || contains word (codes ","))

-- NeedsCredentialsOption
unfoldable pub needs_credentials_option : List Text → Bool
needs_credentials_option (_ ∷ o ∷ []) =
    has_prefix o (codes "password=") && contains_special_character o
needs_credentials_option _ = false

-- The sensitive options of a Linux mount: two of them if the password may confuse the command line.
unfoldable pub credential_options : Text → Text → List Text
credential_options username password =
    if contains_special_character password
    then option_text username_field username ∷ option_text password_field password ∷ []
    else (option_text username_field username ++ b',' ∷ option_text password_field password) ∷ []

raise_or_add : List Text → Text → Text → List Text
raise_or_add flags flag default =
    let (raised, found) = raise_group_rwx_in_mount_flags flags flag in
    if found then raised else raised ++ default ∷ []

-- The options that a volume mount group asks for.
unfoldable pub group_options : List Text → Text → List Text
unfolding raise_or_add
group_options flags group =
    let with_gid = flags ++ option_text (codes "gid") group ∷ [] in
    let with_file = raise_or_add with_gid (codes "file_mode") (codes "file_mode=0774") in
    raise_or_add with_file (codes "dir_mode") (codes "dir_mode=0775")
