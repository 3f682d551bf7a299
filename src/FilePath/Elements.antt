-- ===== src/FilePath/Elements.antt =====
-- What `Clean` and `Join` do to paths with no `..`.
use csi_driver_smb.Base.{
  ℕ, ◌≡◌, ◌≢◌, refl, Bool, true, false, List, [], ◌∷◌, ◌++◌, append-nil, arith, All, All-append,
  Bool-cases, inl, inr, if◌then◌else◌, ◌==◌,
}
use mathlib.Core.List.{reverse_aux, reverse-reverse}
use csi_driver_smb.Text.{Text, text_eq, split, join}
use csi_driver_smb.Text.Parts.{Lacks, split-join, split_by-append_sep, split_by-All-Lacks}
use csi_driver_smb.FilePath.{
  slash, dot_dot, is_skipped, walk, is_abs, elements, render, clean, join_path,
}

abbrev pub is_slash : ℕ → Bool
is_slash c = c == slash

-- The elements that `Clean` keeps when there is no `..` among them.
unfoldable pub plain : List Text → List Text
unfolding is_skipped
plain [] = []
plain (e ∷ es) = let rest = plain es in if is_skipped e then rest else e ∷ rest

abbrev pub IsStep : Text → Type 0
IsStep e = text_eq e dot_dot ≡ false

-- no element of the path is `..`
abbrev pub NoDots : Text → Type 0
NoDots path = All IsStep (split path slash)

-- an element that stands for itself in a clean path
pub record IsPlain (e : Text) : Type 0 where
  pub kept : is_skipped e ≡ false
  pub step : IsStep e
  pub whole : Lacks is_slash e

walk-plain :
    (r : Bool) (stack es : List Text)
    → All IsStep es
    → walk r stack es ≡ reverse_aux (plain es) stack
unfolding walk plain
walk-plain r stack [] _ = refl
walk-plain r stack (e ∷ es) (he, hs) = elim (Bool-cases (is_skipped e)) [
  | inl k ↦ rw (k, walk-plain r stack es hs)
  | inr k ↦ rw (k, he, walk-plain r (e ∷ stack) es hs)
]

pub elements-plain : (path : Text) → NoDots path → elements path ≡ plain (split path slash)
unfolding elements
elements-plain path h = rw (walk-plain (is_abs path) [] (split path slash) h, reverse-reverse)

plain-append : (xs ys : List Text) → plain (xs ++ ys) ≡ plain xs ++ plain ys
unfolding plain
plain-append [] ys = refl
plain-append (e ∷ es) ys = ground (arith, plain-append es ys)

plain-IsPlain : (es : List Text) → All IsStep es → All (Lacks is_slash) es → All IsPlain (plain es)
unfolding plain
plain-IsPlain [] _ _ = tt
plain-IsPlain (e ∷ es) (he, hs) (ke, ks) = elim (Bool-cases (is_skipped e)) [
  | inl k ↦ rw k (plain-IsPlain es hs ks)
  | inr k ↦ rw k (record { kept = k; step = he; whole = ke }, plain-IsPlain es hs ks)
]

plain_self : (es : List Text) → All IsPlain es → plain es ≡ es
unfolding plain
plain_self [] _ = refl
plain_self (e ∷ es) (he, hs) = rw (he.kept, plain_self es hs)

pub split-IsPlain : (path : Text) → NoDots path → All IsPlain (plain (split path slash))
unfolding split
split-IsPlain path h = plain-IsPlain (split path slash) h (split_by-All-Lacks is_slash path)

split-append : (a b : Text) → split (a ++ slash ∷ b) slash ≡ split a slash ++ split b slash
unfolding split
split-append a b = split_by-append_sep is_slash a slash b refl

split-slash : (b : Text) → split (slash ∷ b) slash ≡ [] ∷ split b slash
unfolding split
split-slash b = split-append [] b

IsPlain-Lacks : (es : List Text) → All IsPlain es → All (Lacks is_slash) es
IsPlain-Lacks [] _ = tt
IsPlain-Lacks (e ∷ es) (he, hs) = (he.whole, IsPlain-Lacks es hs)

IsPlain-IsStep : (es : List Text) → All IsPlain es → All IsStep es
IsPlain-IsStep [] _ = tt
IsPlain-IsStep (e ∷ es) (he, hs) = (he.step, IsPlain-IsStep es hs)

-- A clean path is read back to the elements that it was written from.
split-join-IsPlain :
    (e : Text) (es : List Text) → All IsPlain (e ∷ es) → split (join (e ∷ es) slash) slash ≡ e ∷ es
split-join-IsPlain e es h = split-join slash e es (IsPlain-Lacks (e ∷ es) h)

plain-split-render :
    (r : Bool) (es : List Text) → All IsPlain es → plain (split (render r es) slash) ≡ es
unfolding render
plain-split-render true [] h = unfold split join plain text_eq in refl
plain-split-render false [] h = unfold split plain text_eq in refl
plain-split-render true (e ∷ es) h =
    rw (split-slash, split-join-IsPlain e es h) (unfold plain text_eq in plain_self (e ∷ es) h)
plain-split-render false (e ∷ es) h = rw (split-join-IsPlain e es h) (plain_self (e ∷ es) h)

NoDots-render : (r : Bool) (es : List Text) → All IsPlain es → NoDots (render r es)
unfolding render
NoDots-render true [] h = unfold split join text_eq in (refl, (refl, tt))
NoDots-render false [] h = unfold split text_eq in (refl, tt)
NoDots-render true (e ∷ es) h =
    rw (split-slash, split-join-IsPlain e es h)
      ((unfold text_eq in refl), IsPlain-IsStep (e ∷ es) h)
NoDots-render false (e ∷ es) h = rw (split-join-IsPlain e es h) (IsPlain-IsStep (e ∷ es) h)

is_abs-plain : (e : Text) (rest : Text) → IsPlain e → is_abs (e ++ rest) ≡ false
unfolding is_abs is_skipped text_eq
is_abs-plain [] rest h = cc h.kept
is_abs-plain (c ∷ e) rest h = rw (h.whole.0)

is_abs-join :
    (e : Text) (es : List Text) → All IsPlain (e ∷ es) → is_abs (join (e ∷ es) slash) ≡ false
unfolding join
is_abs-join e [] h = rw (← append-nil e) (is_abs-plain e [] h.0)
is_abs-join e (f ∷ es) h = is_abs-plain e (slash ∷ join (f ∷ es) slash) h.0

is_abs-render : (r : Bool) (es : List Text) → All IsPlain es → is_abs (render r es) ≡ r
unfolding render is_abs
is_abs-render true es h = refl
is_abs-render false [] h = refl
is_abs-render false (e ∷ es) h = is_abs-join e es h

is_abs-append : (a b : Text) → a ≢ [] → is_abs (a ++ b) ≡ is_abs a
unfolding is_abs
is_abs-append [] b h = absurd (h refl)
is_abs-append (c ∷ a) b h = refl

render-ne-nil : (r : Bool) (es : List Text) → All IsPlain es → render r es ≢ []
unfolding render is_skipped text_eq join
render-ne-nil true es h e = cc
render-ne-nil false [] h e = cc
render-ne-nil false ([] ∷ es) h e = cc h.0.kept
render-ne-nil false ((c ∷ s) ∷ []) h e = cc
render-ne-nil false ((c ∷ s) ∷ f ∷ es) h e = cc

NoDots-append : (a b : Text) → NoDots a → NoDots b → NoDots (a ++ slash ∷ b)
NoDots-append a b ha hb = rw split-append (All-append IsStep (split a slash) (split b slash) ha hb)

-- With no `..` on either side, `Join` appends the elements that `Clean` keeps.
pub join_path-render :
    (a b : Text)
    → a ≢ []
    → NoDots a
    → NoDots b
    → join_path a b ≡ render (is_abs a) (plain (split a slash) ++ plain (split b slash))
unfolding join_path clean
join_path-render [] b ne ha hb = absurd (ne refl)
join_path-render (c ∷ a) b ne ha hb = rw (
  elements-plain ((c ∷ a) ++ slash ∷ b) (NoDots-append (c ∷ a) b ha hb),
  split-append (c ∷ a) b,
  plain-append,
  is_abs-append (c ∷ a) (slash ∷ b) ne,
)

-- A path that `Join` made can be joined on in the same way.
pub join_path-join_path :
    (a b c : Text)
    → a ≢ []
    → NoDots a
    → NoDots b
    → NoDots c
    → join_path (join_path a b) c
      ≡ render
          (is_abs a)
          ((plain (split a slash) ++ plain (split b slash)) ++ plain (split c slash))
join_path-join_path a b c ne ha hb hc =
    let es = plain (split a slash) ++ plain (split b slash) in
    let h =
      All-append IsPlain (plain (split a slash)) (plain (split b slash)) (split-IsPlain a ha)
        (split-IsPlain b hb) in
    let r = is_abs a in
    rw (
      join_path-render a b ne ha hb,
      join_path-render (render r es) c (render-ne-nil r es h) (NoDots-render r es h) hc,
      plain-split-render r es h,
      is_abs-render r es h,
    )
