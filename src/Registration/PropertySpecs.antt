-- ===== src/Registration/PropertySpecs.antt =====
-- create_property of gobject/gobjectmodule.c: the GParamSpec for the tuple of a property.
use debian_pygobject.Base.{ℕ, ◌%◌, Option, none, some, List, [], ◌∷◌, CString}
use debian_pygobject.CInt.{ℤ, pos, word32, word64}
use debian_pygobject.Constants.{Result, ok, err}
use debian_pygobject.Constants.Convert.{Arg, enum_get_value, flags_get_value}
use debian_pygobject.Values.{
  Glib, Fundamental, interface_type, char_type, uchar_type, boolean_type, int_type, uint_type,
  long_type, ulong_type, int64_type, uint64_type, enum_type, flags_type, float_type, double_type,
  string_type, pointer_type, boxed_type, param_type, object_type, none_type, other_type,
}
use debian_pygobject.Values.Numbers.{to_char}

-- An item of the tuple, as the codes of PyArg_ParseTuple read it: `c`; `i`; `l` and `L`; `I`, `k` and
-- `K`, which do not test for overflow; `f` and `d`, by the bits of the double; `z`; and `O`. A code that
-- refuses the item gives none.
pub record Item : Type 0 where
  pub as_char : Option ℕ
  pub as_int : Option ℤ
  pub as_long : Option ℤ
  pub as_any : Option ℤ
  pub as_double : Option ℕ
  pub as_text : Option (Option CString)
  pub constant : Arg

-- The call of g_param_spec_char and its kin: the minimum, the maximum and the default; for an enum or
-- flags type and for a param, boxed or object type with the type.
pub data Spec : Type 0 where
  ranged : Fundamental → ℤ → ℤ → ℤ → Spec
  real_range : Fundamental → ℕ → ℕ → ℕ → Spec
  boolean_spec : ℤ → Spec
  constant_spec : Fundamental → ℕ → ℤ → Spec
  text_spec : Option CString → Spec
  typed_spec : Fundamental → ℕ → Spec
  pointer_spec : Spec

-- What the switch comes to: a call, the return after an exception, or its default case.
pub data Request : Type 0 where
  calls : Spec → Request
  not_parsed bad_default unhandled : Request

-- PyArg_ParseTuple for a tuple of one, of three, or without items.
unfoldable pub parse_one {ℓ} :
    {A : Type ℓ} → (Item → Option A) → (A → Request) → List Item → Request
parse_one read k (x ∷ []) = elim (read x) [ none ↦ not_parsed | some a ↦ k a ]
parse_one read k xs = not_parsed

unfoldable pub parse_three {ℓ} :
    {A : Type ℓ} → (Item → Option A) → (A → A → A → Request) → List Item → Request
parse_three read k (x ∷ y ∷ z ∷ []) = elim (read x) [
  | none ↦ not_parsed
  | some a ↦ elim (read y) [
    | none ↦ not_parsed
    | some b ↦ elim (read z) [ none ↦ not_parsed | some c ↦ k a b c ]
  ]
]
parse_three read k xs = not_parsed

unfoldable pub parse_none : Spec → List Item → Request
parse_none s [] = calls s
parse_none s (x ∷ xs) = not_parsed

-- The three numbers of a range, each converted to the type.
unfoldable pub range_of {ℓ} : {A : Type ℓ} → Fundamental → (A → ℤ) → A → A → A → Request
range_of f convert a b c = calls (ranged f (convert a) (convert b) (convert c))

-- The default of an enum or flags type; a gint, which a flags type reads as a guint.
unfoldable pub constant_of : Fundamental → ℕ → (ℤ → ℤ) → Result ℤ → Request
constant_of f t convert (ok v) = calls (constant_spec f t (convert v))
constant_of f t convert (err e) = bad_default

abbrev pub guint : ℤ → ℤ
guint v = pos (word32 v)

abbrev pub gulong : ℤ → ℤ
gulong v = pos (word64 v)

unfoldable pub request_for : Glib → Fundamental → ℕ → List Item → Request
unfolding parse_one parse_three parse_none range_of constant_of to_char
request_for g char_type t xs = parse_three (λ x. x.as_char) (range_of char_type to_char) xs
request_for g uchar_type t xs =
    parse_three (λ x. x.as_char) (range_of uchar_type (λ b. pos (b % 256))) xs
request_for g boolean_type t xs = parse_one (λ x. x.as_int) (λ v. calls (boolean_spec v)) xs
request_for g int_type t xs = parse_three (λ x. x.as_int) (range_of int_type (λ v. v)) xs
request_for g uint_type t xs = parse_three (λ x. x.as_any) (range_of uint_type guint) xs
request_for g long_type t xs = parse_three (λ x. x.as_long) (range_of long_type (λ v. v)) xs
request_for g ulong_type t xs = parse_three (λ x. x.as_any) (range_of ulong_type gulong) xs
request_for g int64_type t xs = parse_three (λ x. x.as_long) (range_of int64_type (λ v. v)) xs
request_for g uint64_type t xs = parse_three (λ x. x.as_any) (range_of uint64_type gulong) xs
request_for g enum_type t xs =
    parse_one (λ x. some x.constant)
      (λ a. constant_of enum_type t (λ v. v) (enum_get_value g.types (some t) a)) xs
request_for g flags_type t xs =
    parse_one (λ x. some x.constant)
      (λ a. constant_of flags_type t guint (flags_get_value g.types (some t) a)) xs
request_for g float_type t xs =
    parse_three (λ x. x.as_double)
      (λ a b c. calls (real_range float_type (g.to_float a) (g.to_float b) (g.to_float c))) xs
request_for g double_type t xs =
    parse_three (λ x. x.as_double) (λ a b c. calls (real_range double_type a b c)) xs
request_for g string_type t xs = parse_one (λ x. x.as_text) (λ s. calls (text_spec s)) xs
request_for g param_type t xs = parse_none (typed_spec param_type t) xs
request_for g boxed_type t xs = parse_none (typed_spec boxed_type t) xs
request_for g pointer_type t xs = parse_none pointer_spec xs
request_for g object_type t xs = parse_none (typed_spec object_type t) xs
request_for g interface_type t xs = unhandled
request_for g none_type t xs = unhandled
request_for g other_type t xs = unhandled

-- `make` is GLib's answer to the call; `no_spec` is the TypeError at the end.
pub data Created : Type 0 where
  created : ℕ → Created
  raised no_spec : Created

unfoldable pub create_property : Glib → (Spec → Option ℕ) → ℕ → List Item → Created
unfolding request_for
create_property g make t xs = elim (request_for g (g.fundamental t) t xs) [
  | not_parsed ↦ raised
  | bad_default ↦ raised
  | unhandled ↦ no_spec
  | calls s ↦ elim (make s) [ none ↦ no_spec | some p ↦ created p ]
]
