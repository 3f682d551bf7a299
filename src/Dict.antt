-- ===== src/Dict.antt =====
-- Go's map[string]string, and the helpers of pkg/smb/smb.go and pkg/util/util.go on such maps. A map
-- is the list of its entries. The order in which `range` visits them is left open by Go: it is a
-- function `visit` on maps that the operations take as an argument.
pub mod Laws
use csi_driver_smb.Base.{Option, none, some, List, [], ◌∷◌, if◌then◌else◌, is_empty, ◌||◌}
use csi_driver_smb.Text.{Text, text_eq, to_lower, equal_fold, replace_all}
use csi_driver_smb.Names.{mount_options_field}

abbrev pub Dict : Type 0
Dict = List (Text × Text)

abbrev pub Visit : Type 0
Visit = Dict → Dict

unfoldable pub lookup : Text → Dict → Option Text
lookup k [] = none
lookup k ((j, v) ∷ m) = if text_eq j k then some v else lookup k m

-- m[k], the empty text if the key is missing
unfoldable pub get : Dict → Text → Text
unfolding lookup
get m k = elim (lookup k m) [ none ↦ [] | some v ↦ v ]

-- m[k] = v
unfoldable pub insert : Text → Text → Dict → Dict
insert k v [] = (k, v) ∷ []
insert k v ((j, w) ∷ m) = if text_eq j k then (j, v) ∷ m else (j, w) ∷ insert k v m

-- the first visited key that is `key` up to letter case
unfoldable pub find_fold : Text → Dict → Option Text
find_fold key [] = none
find_fold key ((k, _) ∷ m) = if equal_fold k key then some k else find_fold key m

-- `none` is the nil map
unfoldable pub set_key_value_in_map : Visit → Option Dict → Text → Text → Option Dict
unfolding insert find_fold
set_key_value_in_map visit none key value = none
set_key_value_in_map visit (some m) key value =
    some (elim (find_fold key (visit m)) [ none ↦ insert key value m | some k ↦ insert k value m ])

replace_entries : Text → Dict → Text
replace_entries str [] = str
replace_entries str ((k, v) ∷ m) =
    replace_entries (if is_empty k then str else replace_all str k v) m

unfoldable pub replace_with_map : Visit → Text → Dict → Text
unfolding replace_entries
replace_with_map visit str m = replace_entries str (visit m)

first_mount_options : Dict → Text
first_mount_options [] = []
first_mount_options ((k, v) ∷ m) =
    if text_eq (to_lower k) mount_options_field then v else first_mount_options m

-- getMountOptions
unfoldable pub mount_options_of : Visit → Dict → Text
unfolding first_mount_options
mount_options_of visit context = first_mount_options (visit context)
