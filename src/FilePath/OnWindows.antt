-- ===== src/FilePath/OnWindows.antt =====
-- The functions of path/filepath on Windows, at paths that are not UNC paths: what follows the drive is
-- a path with backslashes.
use csi_driver_smb.Base.{ℕ, Bool, ◌&&◌, ◌||◌, [], ◌∷◌, if◌then◌else◌, leb, ◌==◌}
use csi_driver_smb.Text.{Text, replace_byte}
use csi_driver_smb.FilePath.{slash, clean, dir}

abbrev pub backslash : ℕ
backslash = b'\\'

-- [a-zA-Z]
abbrev pub is_drive : ℕ → Bool
is_drive c = (leb b'a' c && leb c b'z') || (leb b'A' c && leb c b'Z')

-- a function on paths with slashes, applied to what follows the drive
unfoldable pub on_drive : (Text → Text) → Text → Text
unfolding replace_byte
on_drive f (d ∷ c ∷ path) =
    if is_drive d && c == b':'
    then d ∷ c ∷ replace_byte slash backslash (f (replace_byte backslash slash path))
    else replace_byte slash backslash (f (replace_byte backslash slash (d ∷ c ∷ path)))
on_drive f path = replace_byte slash backslash (f (replace_byte backslash slash path))

-- filepath.Dir
unfoldable pub dir_on_drive : Text → Text
unfolding on_drive
dir_on_drive path = on_drive dir path

-- filepath.Clean
unfoldable pub clean_on_drive : Text → Text
unfolding on_drive
clean_on_drive path = on_drive clean path

-- the second path behind the first, which may be a bare drive
unfoldable pub behind : Text → Text → Text
behind [] b = backslash ∷ b
behind (c ∷ []) b = if c == b':' then c ∷ b else c ∷ backslash ∷ b
behind (c ∷ d ∷ a) b = c ∷ behind (d ∷ a) b

-- filepath.Join of two elements
unfoldable pub join_on_drive : Text → Text → Text
unfolding clean_on_drive behind
join_on_drive [] [] = []
join_on_drive [] (c ∷ b) = clean_on_drive (c ∷ b)
join_on_drive (c ∷ a) b = clean_on_drive (behind (c ∷ a) b)
