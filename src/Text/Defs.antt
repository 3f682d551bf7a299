-- ===== src/Text/Defs.antt =====
-- The functions of `strings`, over byte lists. Letter case and white space are those of ASCII.
use Prim.Native.Char.{code}
use csi_driver_smb.Base.{
  ℕ, zero, suc, ◌+◌, ◌-◌, String, Bool, true, false, ◌&&◌, ◌||◌, List, [], ◌∷◌, ◌++◌, leb, ◌==◌,
  if◌then◌else◌, length, is_empty, drop,
}

abbrev pub Text : Type 0
Text = List ℕ

-- the bytes of an ASCII literal
abbrev pub codes : String → Text
codes String.[] = []
codes (String.◌∷◌ c s) = code c ∷ codes s

-- s == t
unfoldable pub text_eq : Text → Text → Bool
text_eq [] [] = true
text_eq [] (_ ∷ _) = false
text_eq (_ ∷ _) [] = false
text_eq (a ∷ s) (b ∷ t) = a == b && text_eq s t

-- strings.HasPrefix(s, p)
unfoldable pub has_prefix : Text → Text → Bool
has_prefix s [] = true
has_prefix [] (_ ∷ _) = false
has_prefix (a ∷ s) (b ∷ p) = a == b && has_prefix s p

-- strings.Contains(s, p)
unfoldable pub contains : Text → Text → Bool
unfolding has_prefix
contains [] p = has_prefix [] p
contains (c ∷ s) p = has_prefix (c ∷ s) p || contains s p

-- strings.TrimPrefix(s, p)
unfoldable pub trim_prefix : Text → Text → Text
unfolding has_prefix
trim_prefix s p = if has_prefix s p then drop (length p) s else s

-- The first part of a text before a separator, and the parts behind it.
unfoldable pub cut : (ℕ → Bool) → Text → Text × List Text
cut p [] = ([], [])
cut p (c ∷ s) = let (h, t) = cut p s in if p c then ([], h ∷ t) else (c ∷ h, t)

unfoldable pub split_by : (ℕ → Bool) → Text → List Text
unfolding cut
split_by p s = let (h, t) = cut p s in h ∷ t

-- strings.Split(s, sep) at a separator of one byte
unfoldable pub split : Text → ℕ → List Text
unfolding split_by
split s sep = split_by (λ c. c == sep) s

unfoldable pub drop_empty : List Text → List Text
drop_empty [] = []
drop_empty ([] ∷ ps) = drop_empty ps
drop_empty ((c ∷ p) ∷ ps) = (c ∷ p) ∷ drop_empty ps

-- strings.FieldsFunc(s, p)
unfoldable pub fields_func : Text → (ℕ → Bool) → List Text
unfolding split_by drop_empty
fields_func s p = drop_empty (split_by p s)

-- strings.Join(parts, sep) at a separator of one byte
unfoldable pub join : List Text → ℕ → Text
join [] sep = []
join (p ∷ []) sep = p
join (p ∷ q ∷ ps) sep = p ++ sep ∷ join (q ∷ ps) sep

unfoldable pub trim_left_by : (ℕ → Bool) → Text → Text
trim_left_by p [] = []
trim_left_by p (c ∷ s) = let rest = trim_left_by p s in if p c then rest else c ∷ s

unfoldable pub trim_right_by : (ℕ → Bool) → Text → Text
trim_right_by p [] = []
trim_right_by p (c ∷ s) =
    let rest = trim_right_by p s in if p c && is_empty rest then [] else c ∷ rest

-- strings.TrimRight(s, cutset) at a cutset of one byte
unfoldable pub trim_right : Text → ℕ → Text
unfolding trim_right_by
trim_right s b = trim_right_by (λ c. c == b) s

-- strings.Trim(s, cutset) at a cutset of one byte
unfoldable pub trim : Text → ℕ → Text
unfolding trim_left_by trim_right
trim s b = trim_right (trim_left_by (λ c. c == b) s) b

abbrev is_space : ℕ → Bool
is_space c = c == 32 || leb 9 c && leb c 13

-- strings.TrimSpace
unfoldable pub trim_space : Text → Text
unfolding trim_left_by trim_right_by
trim_space s = trim_right_by is_space (trim_left_by is_space s)

abbrev pub lower_byte : ℕ → ℕ
lower_byte c = if leb b'A' c && leb c b'Z' then c + 32 else c

-- strings.ToLower
unfoldable pub to_lower : Text → Text
to_lower [] = []
to_lower (c ∷ s) = lower_byte c ∷ to_lower s

-- strings.EqualFold
unfoldable pub equal_fold : Text → Text → Bool
unfolding text_eq to_lower
equal_fold s t = text_eq (to_lower s) (to_lower t)

-- The number is how many bytes of a match are still to be passed over.
unfoldable pub replace_from : Text → Text → ℕ → Text → Text
replace_from old new skip [] = []
replace_from old new (suc k) (c ∷ s) = replace_from old new k s
replace_from old new zero (c ∷ s) =
    let matched = replace_from old new (length old - 1) s in
    let other = replace_from old new 0 s in
    if has_prefix (c ∷ s) old then new ++ matched else c ∷ other

-- strings.ReplaceAll(s, old, new) for an `old` that is not empty, the only case that is called
unfoldable pub replace_all : Text → Text → Text → Text
unfolding replace_from has_prefix
replace_all s old new = replace_from old new 0 s

-- strings.ReplaceAll at texts of one byte
unfoldable pub replace_byte : ℕ → ℕ → Text → Text
replace_byte old new [] = []
replace_byte old new (c ∷ s) = (if c == old then new else c) ∷ replace_byte old new s
