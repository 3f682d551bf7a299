-- ===== src/FilePath.antt =====
-- The functions of Go's path/filepath on Linux that the driver calls, on the elements of a path.
pub mod Elements
pub mod OnWindows
use csi_driver_smb.Base.{
  ℕ, Bool, true, false, ◌||◌, List, [], ◌∷◌, ◌++◌, if◌then◌else◌, ◌==◌, is_empty,
}
use mathlib.Core.List.{reverse}
use csi_driver_smb.Text.{Text, codes, text_eq, has_prefix, split, join}

abbrev pub slash : ℕ
slash = b'/'

abbrev pub dot_dot : Text
dot_dot = codes ".."

-- an element that `Clean` leaves out
unfoldable pub is_skipped : Text → Bool
is_skipped e = text_eq e [] || text_eq e (codes ".")

-- `..` takes back the last element; at the root it is dropped, and else kept
unfoldable pub pop : Bool → List Text → List Text
pop rooted [] = if rooted then [] else dot_dot ∷ []
pop rooted (t ∷ stack) = if text_eq t dot_dot then dot_dot ∷ t ∷ stack else stack

-- the elements that are kept, the last one first
unfoldable pub walk : Bool → List Text → List Text → List Text
unfolding is_skipped pop
walk rooted stack [] = stack
walk rooted stack (e ∷ es) =
    walk rooted
      (if is_skipped e then stack else if text_eq e dot_dot then pop rooted stack else e ∷ stack) es

unfoldable pub is_abs : Text → Bool
unfolding has_prefix
is_abs path = has_prefix path (slash ∷ [])

-- The elements of a path after `Clean`.
unfoldable pub elements : Text → List Text
unfolding is_abs split walk
elements path = reverse (walk (is_abs path) [] (split path slash))

unfoldable pub render : Bool → List Text → Text
unfolding join
render true es = slash ∷ join es slash
render false [] = codes "."
render false (e ∷ es) = join (e ∷ es) slash

-- filepath.Clean
unfoldable pub clean : Text → Text
unfolding elements render
clean path = if is_empty path then codes "." else render (is_abs path) (elements path)

-- filepath.Join of two elements
unfoldable pub join_path : Text → Text → Text
unfolding clean
join_path [] [] = []
join_path [] (c ∷ b) = clean (c ∷ b)
join_path (c ∷ a) b = clean ((c ∷ a) ++ slash ∷ b)

-- everything up to the last slash, with it
unfoldable pub dir_part : Text → Text
dir_part [] = []
dir_part (c ∷ s) =
    let rest = dir_part s in
    if is_empty rest then if c == slash then slash ∷ [] else [] else c ∷ rest

-- filepath.Dir
unfoldable pub dir : Text → Text
unfolding dir_part clean
dir path = clean (dir_part path)
