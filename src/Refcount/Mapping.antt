-- ===== src/Refcount/Mapping.antt =====
-- The mapping of a path below a share.
use csi_driver_smb.Base.{◌≡◌, ℕ, refl, List, [], ◌∷◌, All, ◌==◌}
use csi_driver_smb.Result.{ok}
use csi_driver_smb.Text.{Text, to_lower, join, drop_empty}
use csi_driver_smb.Text.Parts.{Lacks, split-join}
use csi_driver_smb.Windows.{backslash}
use csi_driver_smb.Refcount.{unc_root, root_of, get_root_mapping_path}

-- A path that begins with two backslashes, a host and a share, both not empty, has the mapping of its
-- host and share in lower case, whatever parts follow.
pub get_root_mapping_path-join :
    (h s : ℕ) (host share : Text) (parts : List Text)
    → All (Lacks (λ c. c == backslash)) ((h ∷ host) ∷ (s ∷ share) ∷ parts)
    → get_root_mapping_path (join ([] ∷ [] ∷ (h ∷ host) ∷ (s ∷ share) ∷ parts) backslash)
      ≡ ok (to_lower (unc_root (h ∷ host) (s ∷ share)))
unfolding get_root_mapping_path root_of drop_empty
get_root_mapping_path-join h s host share parts lack =
    rw (split-join backslash [] ([] ∷ (h ∷ host) ∷ (s ∷ share) ∷ parts) (tt, (tt, lack))) refl
