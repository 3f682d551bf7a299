-- ===== src/Volume/Order.antt =====
-- The result of the loop over a map of parameters, whatever order `range` visits them in.
use mathlib.Core.List.{Perm, Permᴰ, Pairwise, rel_of_Pairwise-cons, mem-cons_self}
use mathlib.Core.List.Pairwise
use mathlib.Core.Logic.{∥∥₁_elim}
use mathlib.Core.List.Permᴰ
use csi_driver_smb.Base.{◌≡◌, ◌≢◌, refl, sym, ◌∙◌, ap, ap₂, [], ◌∷◌, arith, ◌⊎◌, inl, inr}
use csi_driver_smb.Result.{Result, Reason, ok, err, ◌>>=◌}
use csi_driver_smb.Text.{Text, to_lower}
use csi_driver_smb.Text.Search.{text_eq_sound}
use csi_driver_smb.Dict.{Dict}
use csi_driver_smb.Names.{
  source_field, sub_dir_field, param_on_delete, pvc_namespace_key, pvc_name_key, pv_name_key,
}
use csi_driver_smb.Volume.Params.{
  ParamKey-discrete, ParamKey, VolumeParams, param_key, set_param, parse_params, source, sub_dir,
  on_delete, pvc_namespace, pvc_name, pv_name, other,
}

-- Two assignments of different variables, or two refusals, may be swapped.
set_param_comm :
    (a b : ParamKey) (v w : Text) (p : VolumeParams)
    → (a ≢ b) ⊎ (a ≡ other)
    → (do q ← set_param a v p; set_param b w q) ≡ (do q ← set_param b w p; set_param a v q)
unfolding set_param
set_param_comm source b v w p h = ground arith
set_param_comm _ b v w p h = ground arith

-- the text that a case of the switch stands for
abbrev case_text : ParamKey → Text
case_text source = source_field
case_text sub_dir = sub_dir_field
case_text on_delete = param_on_delete
case_text pvc_namespace = pvc_namespace_key
case_text pvc_name = pvc_name_key
case_text pv_name = pv_name_key
case_text other = []

to_lower-case_text : (k : Text) → (param_key k ≡ other) ⊎ (to_lower k ≡ case_text (param_key k))
unfolding param_key
to_lower-case_text k = ground (
  arith,
  text_eq_sound (to_lower k) source_field,
  text_eq_sound (to_lower k) sub_dir_field,
  text_eq_sound (to_lower k) param_on_delete,
  text_eq_sound (to_lower k) pvc_namespace_key,
  text_eq_sound (to_lower k) pvc_name_key,
  text_eq_sound (to_lower k) pv_name_key,
)

-- keys that stay apart in lower case
abbrev pub Apart : Text × Text → Text × Text → Type 0
Apart a b = to_lower a.0 ≢ to_lower b.0

param_key-Apart :
    (k j : Text) → to_lower k ≢ to_lower j → (param_key k ≢ param_key j) ⊎ (param_key k ≡ other)
param_key-Apart k j ne = elim (to_lower-case_text k) [
  | inl e ↦ inr e
  | inr e ↦ elim (to_lower-case_text j) [
    | inl f ↦ elim (ParamKey-discrete (param_key k) other) [
      | yes g ↦ inr g
      | no g ↦ inl (λ h. g (h ∙ f))
    ]
    | inr f ↦ inl (λ h. ne (e ∙ ap case_text h ∙ sym f))
  ]
]

>>=_assoc :
    (m : Result Reason VolumeParams) (f : VolumeParams → Result Reason VolumeParams) (l : Dict)
    → (do q ← m; r ← f q; parse_params r l) ≡ (do r ← (do q ← m; f q); parse_params r l)
>>=_assoc (ok q) f l = refl
>>=_assoc (err e) f l = refl

parse_params_swap :
    (a b : Text × Text) (l : Dict) (p : VolumeParams)
    → Apart a b
    → parse_params p (a ∷ b ∷ l) ≡ parse_params p (b ∷ a ∷ l)
unfolding parse_params
parse_params_swap (k, v) (j, w) l p h =
    >>=_assoc (set_param (param_key k) v p) (set_param (param_key j) w) l
    ∙ ap (λ (m : Result Reason VolumeParams). do r ← m; parse_params r l)
        (set_param_comm (param_key k) (param_key j) v w p (param_key-Apart k j h))
    ∙ sym (>>=_assoc (set_param (param_key j) w p) (set_param (param_key k) v) l)

bind_ext :
    (m : Result Reason VolumeParams) (f g : VolumeParams → Result Reason VolumeParams)
    → ((q : VolumeParams) → f q ≡ g q)
    → (m >>= f) ≡ (m >>= g)
bind_ext (ok q) f g h = h q
bind_ext (err e) f g h = refl

parse_params_tail :
    (a : Text × Text) (l m : Dict) (p : VolumeParams)
    → ((q : VolumeParams) → parse_params q l ≡ parse_params q m)
    → parse_params p (a ∷ l) ≡ parse_params p (a ∷ m)
unfolding parse_params
parse_params_tail (k, v) l m p h =
    bind_ext (set_param (param_key k) v p) (λ q. parse_params q l) (λ q. parse_params q m) h

Apart-prop : (a b : Text × Text) → IsProp (Apart a b)
Apart-prop a b = hlevel

parse_params-Permᴰ :
    {l m : Dict}
    → Permᴰ l m
    → (p : VolumeParams) → Pairwise Apart l
    → parse_params p l ≡ parse_params p m
parse_params-Permᴰ Permᴰ.nil p h = refl
parse_params-Permᴰ (Permᴰ.cons {a} {b} {l₁ = l} {l₂ = m} e d) p h =
    parse_params_tail a l m p (λ q. parse_params-Permᴰ d q (Pairwise.of_cons h))
    ∙ ap (λ (x : Text × Text). parse_params p (x ∷ m)) e
parse_params-Permᴰ (Permᴰ.swap {a} {b} {l} e f) p h =
    parse_params_swap a b l p (rel_of_Pairwise-cons h mem-cons_self)
    ∙ ap₂ (λ (x y : Text × Text). parse_params p (x ∷ y ∷ l)) f e
parse_params-Permᴰ (Permᴰ.trans d₁ d₂) p h =
    parse_params-Permᴰ d₁ p h
    ∙ parse_params-Permᴰ d₂ p (Permᴰ.pairwise Apart-prop (λ x y ne e. ne (sym e)) d₁ h)

params_result_set : IsSet (Result Reason VolumeParams)
params_result_set = hlevel

-- Two orders of visiting the same map give the same parameters, or the same refusal, if no two keys
-- of the map agree in lower case.
pub parse_params-Perm :
    (l m : Dict) (p : VolumeParams)
    → Perm l m
    → Pairwise Apart l
    → parse_params p l ≡ parse_params p m
parse_params-Perm l m p d h =
    ∥∥₁_elim d (params_result_set (parse_params p l) (parse_params p m))
      (λ e. parse_params-Permᴰ e p h)
