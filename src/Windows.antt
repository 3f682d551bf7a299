-- ===== src/Windows.antt =====
-- Paths on Windows: pkg/os/filesystem/filesystem.go. The two regular expressions are written out.
pub mod Accepted
use csi_driver_smb.Base.{
  ℕ, Bool, true, false, ◌&&◌, ◌||◌, List, [], ◌∷◌, any, drop, length, if◌then◌else◌, ltb, leb, ◌==◌,
}
pub use csi_driver_smb.FilePath.OnWindows.{backslash, is_drive}
use csi_driver_smb.Text.{Text, codes, contains, has_prefix}
use csi_driver_smb.Result.{
  Reason, Result, ok, err, path_too_long, leading_backslash, unc_prefix, invalid_characters,
  not_absolute,
}

-- MaxPathLengthWindows of pkg/util/util.go
abbrev pub max_path_length_windows : ℕ
max_path_length_windows = 260

-- invalidPathCharsRegexWindows on one byte
abbrev pub is_invalid : ℕ → Bool
is_invalid c = c == b'"' || (c == b'/' || (c == b':' || (c == b'?' || (c == b'*' || c == b'|'))))

-- absPathRegexWindows
unfoldable pub is_abs_windows : Text → Bool
is_abs_windows (d ∷ c ∷ b ∷ _) = is_drive d && (c == b':' && b == backslash)
is_abs_windows _ = false

unfoldable pub contains_invalid_characters_windows : Text → Bool
unfolding is_abs_windows
contains_invalid_characters_windows path =
    let rest = if is_abs_windows path then drop 3 path else path in
    any is_invalid rest || contains rest (codes "..")

unfoldable pub is_unc_path_windows : Text → Bool
is_unc_path_windows (a ∷ b ∷ _) = a == backslash && b == backslash
is_unc_path_windows _ = false

begins_with_backslash : Text → Bool
begins_with_backslash [] = false
begins_with_backslash (c ∷ _) = c == backslash

unfoldable pub validate_path_windows : Text → Result Reason (Unit {0})
unfolding begins_with_backslash is_unc_path_windows contains_invalid_characters_windows
    is_abs_windows
validate_path_windows path =
    if ltb max_path_length_windows (length path)
    then err path_too_long
    else if begins_with_backslash path
    then err leading_backslash
    else if is_unc_path_windows path
    then err unc_prefix
    else if contains_invalid_characters_windows path
    then err invalid_characters
    else if is_abs_windows path
    then ok tt
    else err not_absolute
