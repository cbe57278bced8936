-- ===== src/Values/Param.antt =====
-- pyg_param_gvalue_from_pyobject and pyg_param_gvalue_as_pyobject of gobject/pygtype.c: a property's
-- param spec decides on two kinds of value before the type does.
use debian_pygobject.Base.{ℕ, Option, none, some, List, [], ◌∷◌, Bool}
use debian_pygobject.CInt.{pos, negsuc}
use debian_pygobject.Values.{
  Glib, Python, Marshals, Object, Content, number, Answer, stored, refused,
}
use debian_pygobject.Values.FromPython.{ArraySpec, value_array_from_pyobject, value_from_pyobject}
use debian_pygobject.Values.ToPython.{Converted, Wrapping, get_number, value_as_pyobject}

-- G_IS_PARAM_SPEC_UNICHAR, G_IS_PARAM_SPEC_VALUE_ARRAY, and the rest.
pub data SpecKind : Type 0 where
  unichar_spec plain_spec : SpecKind
  array_spec : ArraySpec → SpecKind

-- pyg_pyobj_to_unichar_conv: a unicode string of one code unit.
unfoldable pub one_unit : List ℕ → Option ℕ
one_unit (u ∷ []) = some u
one_unit _ = none

unfoldable pub to_unichar : Python → Object → Option ℕ
unfolding one_unit
to_unichar py o = elim (py.unicode o) [ none ↦ none | some us ↦ one_unit us ]

unfoldable pub param_gvalue_from_pyobject :
    ℕ → ℕ → Glib → Python → Marshals → SpecKind → ℕ → Content → Object → Answer
unfolding to_unichar value_array_from_pyobject
param_gvalue_from_pyobject fuel depth g py m unichar_spec t c o = elim (to_unichar py o) [
  | none ↦ refused c
  | some u ↦ stored (number (pos u))
]
param_gvalue_from_pyobject fuel depth g py m (array_spec spec) t c o =
    value_array_from_pyobject (value_from_pyobject fuel depth g py m) g py (some spec) o c
param_gvalue_from_pyobject fuel depth g py m plain_spec t c o =
    value_from_pyobject fuel depth g py m t c o

-- `unicode_of` is PyUnicode_FromUnicode of one code unit.
unfoldable pub param_gvalue_as_pyobject :
    (ℕ → Converted) → ℕ → Glib → Marshals → Wrapping → Bool → SpecKind → ℕ → Content → Converted
unfolding get_number
param_gvalue_as_pyobject unicode_of depth g m w copy unichar_spec t c = elim (get_number c) [
  | pos n ↦ unicode_of n
  | negsuc n ↦ unicode_of 0
]
param_gvalue_as_pyobject unicode_of depth g m w copy (array_spec spec) t c =
    value_as_pyobject depth g m w copy t c
param_gvalue_as_pyobject unicode_of depth g m w copy plain_spec t c =
    value_as_pyobject depth g m w copy t c
