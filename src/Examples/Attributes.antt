-- ===== src/Examples/Attributes.antt =====
-- The theorems on properties at an object with one property, `size`, whose state is its value.
use debian_pygobject.Base.{
  ℕ, ◌≡◌, refl, true, false, Option, none, some, List, [], ◌∷◌, arith, bytes_eq, CString, codes,
  if◌then◌else◌,
}
use debian_pygobject.CInt.{pos}
use debian_pygobject.Values.{Glib, Object, int_object, Content, number, int_type}
use debian_pygobject.Values.ToPython.{Converted, object, int_or_long}
use debian_pygobject.Values.FromPython.{value_from_pyobject}
use debian_pygobject.Values.Param.{plain_spec, param_gvalue_from_pyobject, param_gvalue_as_pyobject}
use debian_pygobject.Properties.{
  ParamSpec, Env, World, ok, set_property, get_property, set_properties,
}
use debian_pygobject.Properties.Attributes.{PropsClass, getattro, setattro, by_property}
use debian_pygobject.Properties.Same.{as_attribute, attribute_access, property_roundtrip}
use debian_pygobject.Properties.Frozen.{set_each, set_properties-each, at_state}
use debian_pygobject.Examples.Conversions.{all_of, python, no_marshals, wrapping}

abbrev size : ParamSpec
size = record { id = 1; readable = true; writable = true; construct_only = false; value_type = 1 }

abbrev size_name : CString
size_name = codes "size"

abbrev of_unit : ℕ → Converted
of_unit u = object (int_object (pos u))

abbrev int_types : Glib
int_types = record (all_of int_type) { initial = λ t. number (pos 0) }

-- The conversions of a GParamSpecInt.
abbrev env : Env Content
env = record {
  find_property = λ s. if bytes_eq s size_name then some size else none;
  get = λ s name. s;
  set = λ s name c. c;
  initial = λ p. number (pos 0);
  from_pyobject = λ p o.
      param_gvalue_from_pyobject 1 2 int_types python no_marshals plain_spec p.value_type
        (number (pos 0)) o;
  plain_from_pyobject =
      λ p o. value_from_pyobject 1 2 int_types python no_marshals p.value_type (number (pos 0)) o;
  as_pyobject = λ p c.
      param_gvalue_as_pyobject of_unit 2 int_types no_marshals wrapping true plain_spec p.value_type
        c;
  plain_as_pyobject = λ p c.
      param_gvalue_as_pyobject of_unit 2 int_types no_marshals wrapping true plain_spec p.value_type
        c;
}

abbrev seven : Object
seven = int_object (pos 7)

abbrev at_zero : World Content
at_zero = at_state (number (pos 0)) 0

abbrev constructed : List (CString × Content) → Option Content → Option (Option Content)
constructed vs before = some (some (number (pos 7)))

-- The class of the object itself.
abbrev sized : PropsClass
sized = record { properties = size_name ∷ []; find_pspec = env.find_property }

attribute_access_example :
    (getattro env sized 2 (some size_name) (some (some (number (pos 0))))
      ≡ (as_attribute (get_property env (some size_name) at_zero), 2))
    × (setattro env (some size_name) (some seven) (some at_zero)
        ≡ ok (by_property (set_property env (some (size_name, seven)) at_zero)))
attribute_access_example =
    attribute_access env (number (pos 0)) at_zero refl sized 2 size_name seven size refl refl refl

property_roundtrip_example :
    (set_property env (some (size_name, int_or_long (pos 7))) at_zero ≡ (
      ok tt,
      record at_zero { obj = some (env.set (number (pos 0)) size_name (number (pos 7))) },
    ))
    × (get_property env
          (some size_name)
          (record at_zero { obj = some (env.set (number (pos 0)) size_name (number (pos 7))) })
        ≡ ok (object (int_or_long (pos 7))))
unfolding param_gvalue_from_pyobject param_gvalue_as_pyobject
property_roundtrip_example =
    property_roundtrip env (number (pos 0)) at_zero refl 0 2 int_types python no_marshals wrapping
      of_unit size_name size int_type (pos 7) refl refl refl refl tt (omega arith) refl (λ c. refl)
      (λ o. refl) (λ c. refl)

set_properties-each_example :
    set_properties env ((size_name, seven) ∷ []) (at_state (number (pos 0)) 4)
    ≡ set_each env ((size_name, seven) ∷ []) (at_state (number (pos 0)) 4)
set_properties-each_example = set_properties-each env 4 ((size_name, seven) ∷ []) (number (pos 0))
