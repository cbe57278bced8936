-- ===== src/Values/FromPython.antt =====
-- pyg_value_from_pyobject and pyg_value_array_from_pyobject of gobject/pygtype.c.
use debian_pygobject.Base.{
  ℕ, suc, Bool, true, false, not, ◌&&◌, Option, none, some, List, [], ◌∷◌, ◌==◌, ltb, if◌then◌else◌,
  length,
}
use debian_pygobject.Values.{
  Glib, Python, Marshals, Fundamental, interface_type, char_type, uchar_type, boolean_type,
  int_type, uint_type, long_type, ulong_type, int64_type, uint64_type, enum_type, flags_type,
  float_type, double_type, string_type, pointer_type, boxed_type, param_type, object_type,
  none_type, other_type, Object, none_object, gobject_object, boxed_object, pointer_object,
  param_object, cobject, text_object, Content, pointer, python, gstring, gvalue, array, Contents,
  no_contents, item, Sequence, not_sequence, no_length, items, Answer, stored, refused, unset,
  out_of_fuel,
}
use debian_pygobject.Values.TypeFrom.{type_from_object}
use debian_pygobject.Values.Lookup.{type_lookup}
use debian_pygobject.Values.Numbers.{
  set_char, set_uchar, set_boolean, set_int, set_uint, set_long, set_ulong, set_int64, set_uint64,
  set_enum, set_flags, set_real, set_string,
}

-- GParamSpecValueArray: the length, if it is fixed, and for a spec of the elements their type and
-- the conversion that it does.
pub record ArraySpec : Type 0 where
  pub fixed_n_elements : ℕ
  pub element : Option (ℕ × (Content → Object → Answer))

-- The loop over the items: the array, or a failure after which it is freed.
pub data Built : Type 0 where
  built : Contents → Built
  failed built_out_of_fuel : Built

-- A wrapped GObject whose type fits.
unfoldable pub instance_of : Glib → ℕ → Option ℕ → Bool
instance_of g t none = false
instance_of g t (some a) = g.instance_is_a a t

-- The cases G_TYPE_OBJECT and, if the type has GObject as a prerequisite, G_TYPE_INTERFACE.
unfoldable pub set_object : Glib → ℕ → Object → Content → Answer
unfolding instance_of
set_object g t none_object c = stored (pointer none)
set_object g t (gobject_object a) c = if instance_of g t a then stored (pointer a) else refused c
set_object g t o c = refused c

unfoldable pub set_interface : Glib → ℕ → Object → Content → Answer
unfolding set_object
set_interface g t o c = if g.is_a t g.gobject_gtype then set_object g t o c else refused c

unfoldable pub set_pointer : Glib → ℕ → Object → Content → Answer
set_pointer g t none_object c = stored (pointer none)
set_pointer g t (pointer_object u a) c = if g.is_a t u then stored (pointer a) else refused c
set_pointer g t (cobject a) c = stored (pointer a)
set_pointer g t o c = refused c

-- PyCObject_AsVoidPtr of an object that is no PyCObject is NULL with a TypeError.
unfoldable pub as_void_ptr : Object → Option (Option ℕ)
as_void_ptr (cobject a) = some a
as_void_ptr o = none

unfoldable pub set_param : Object → Content → Answer
unfolding as_void_ptr
set_param (param_object a) c = elim (as_void_ptr (param_object a)) [
  | none ↦ unset
  | some p ↦ stored (pointer p)
]
set_param o c = refused c

-- The type of an item: that of the element spec, a pointer for None, or the type of its class.
unfoldable pub plain_item_type : Glib → Python → Object → ℕ
unfolding type_from_object
plain_item_type g py none_object = g.standard pointer_type
plain_item_type g py o = type_from_object g (py.class_of o)

unfoldable pub item_type : Glib → Python → Option ArraySpec → Object → ℕ
unfolding plain_item_type
item_type g py none o = plain_item_type g py o
item_type g py (some spec) o = elim spec.element [
  | some (t, conv) ↦ t
  | none ↦ plain_item_type g py o
]

unfoldable pub item_conversion :
    (ℕ → Content → Object → Answer) → Option ArraySpec → ℕ → Content → Object → Answer
item_conversion from none t = from t
item_conversion from (some spec) t = elim spec.element [ none ↦ from t | some (u, conv) ↦ conv ]

unfoldable pub append_item : ℕ → Answer → Built → Built
append_item t (stored c) (built cs) = built (item t c cs)
append_item t (stored c) failed = failed
append_item t (stored c) built_out_of_fuel = built_out_of_fuel
append_item t (refused c) rest = failed
append_item t unset rest = failed
append_item t out_of_fuel rest = built_out_of_fuel

unfoldable pub array_loop :
    (ℕ → Content → Object → Answer)
    → Glib
    → Python
    → Option ArraySpec
    → List (Option Object)
    → Built
unfolding item_type item_conversion append_item
array_loop from g py spec [] = built no_contents
array_loop from g py spec (none ∷ xs) = failed
array_loop from g py spec (some o ∷ xs) =
    let rest = array_loop from g py spec xs in
    let t = item_type g py spec o in
    if t == 0 then failed else append_item t (item_conversion from spec t (g.initial t) o) rest

-- A fixed length that the sequence does not have.
unfoldable pub wrong_length : Option ArraySpec → ℕ → Bool
wrong_length none n = false
wrong_length (some spec) n = ltb 0 spec.fixed_n_elements && not (n == spec.fixed_n_elements)

-- g_value_take_boxed, if there is an array.
unfoldable pub take_array : Built → Content → Answer
take_array (built cs) c = stored (array cs)
take_array failed c = refused c
take_array built_out_of_fuel c = out_of_fuel

-- `from` is the conversion of an item without a spec.
unfoldable pub value_array_from_pyobject :
    (ℕ → Content → Object → Answer) → Glib → Python → Option ArraySpec → Object → Content → Answer
unfolding array_loop wrong_length take_array
value_array_from_pyobject from g py spec o c = elim (py.sequence o) [
  | not_sequence ↦ refused c
  | no_length ↦ refused c
  | items xs ↦
      if wrong_length spec (length xs)
      then refused c
      else take_array (array_loop from g py spec xs) c
]

-- The GValue inside one of type G_TYPE_VALUE, which is filled after the outer one has taken it.
unfoldable pub nested_answer : ℕ → Answer → Answer
nested_answer t (stored c) = stored (gvalue t c)
nested_answer t (refused c) = refused (gvalue t c)
nested_answer t unset = refused (gvalue 0 (pointer none))
nested_answer t out_of_fuel = out_of_fuel

unfoldable pub set_gvalue :
    (ℕ → Content → Object → Answer) → Glib → Python → Object → Content → Answer
unfolding type_from_object nested_answer
set_gvalue from g py o c =
    let t = type_from_object g (py.class_of o) in
    if t == 0 then refused c else nested_answer t (from t (g.initial t) o)

-- A registered conversion, or `otherwise`; the fuel is that of the lookup.
unfoldable pub set_custom : ℕ → Glib → Marshals → ℕ → Object → Content → Answer → Answer
unfolding type_lookup
set_custom depth g m t o c otherwise = elim (type_lookup depth g m t) [
  | none ↦ out_of_fuel
  | some none ↦ otherwise
  | some (some tm) ↦ m.tovalue tm c o
]

-- The last test of the case G_TYPE_BOXED.
unfoldable pub set_cobject : Object → Content → Answer
set_cobject (cobject a) c = stored (pointer a)
set_cobject o c = refused c

abbrev pub is_sequence : Sequence → Bool
is_sequence not_sequence = false
is_sequence no_length = true
is_sequence (items xs) = true

-- The string that a GString takes, and the pointer of a boxed wrapper whose type fits.
abbrev pub gstring_of : Object → Option (List ℕ)
gstring_of (text_object s) = some s
gstring_of o = none

unfoldable pub boxed_of : Glib → ℕ → Object → Option (Option ℕ)
boxed_of g t (boxed_object u a) = if g.is_a t u then some a else none
boxed_of g t o = none

-- From the test for a GString on.
unfoldable pub set_other_boxed : ℕ → Glib → Marshals → ℕ → Object → Content → Answer
unfolding set_custom set_cobject
set_other_boxed depth g m t o c = elim (if g.is_a t g.gstring_gtype then gstring_of o else none) [
  | some s ↦ stored (gstring s)
  | none ↦ set_custom depth g m t o c (set_cobject o c)
]

-- The case G_TYPE_BOXED for an object other than None.
unfoldable pub set_boxed_object :
    (ℕ → Content → Object → Answer) → ℕ → Glib → Python → Marshals → ℕ → Object → Content → Answer
unfolding boxed_of set_gvalue value_array_from_pyobject set_other_boxed
set_boxed_object from depth g py m t o c =
    if g.is_a t g.py_object_gtype then stored (python o) else elim (boxed_of g t o) [
      | some a ↦ stored (pointer a)
      | none ↦
          if g.is_a t g.value_gtype
          then set_gvalue from g py o c
          else if is_sequence (py.sequence o) && g.is_a t g.value_array_gtype
          then value_array_from_pyobject from g py none o c
          else set_other_boxed depth g m t o c
    ]

unfoldable pub set_boxed :
    (ℕ → Content → Object → Answer) → ℕ → Glib → Python → Marshals → ℕ → Object → Content → Answer
unfolding set_boxed_object
set_boxed from depth g py m t none_object c = stored (pointer none)
set_boxed from depth g py m t o c = set_boxed_object from depth g py m t o c

-- The switch; `from` is the function itself with less fuel, and in the default case a type without a
-- registered conversion is left as it is.
unfoldable pub switch_from :
    (ℕ → Content → Object → Answer)
    → ℕ
    → Glib
    → Python
    → Marshals
    → Fundamental
    → ℕ
    → Content
    → Object
    → Answer
unfolding set_interface set_char set_uchar set_boolean set_int set_uint set_long set_ulong set_int64
    set_uint64 set_enum set_flags set_real set_string set_pointer set_boxed set_param set_object
    set_custom
switch_from from depth g py m interface_type t c o = set_interface g t o c
switch_from from depth g py m char_type t c o = set_char py o c
switch_from from depth g py m uchar_type t c o = set_uchar py o c
switch_from from depth g py m boolean_type t c o = set_boolean py o
switch_from from depth g py m int_type t c o = set_int py o
switch_from from depth g py m uint_type t c o = set_uint o c
switch_from from depth g py m long_type t c o = set_long py o
switch_from from depth g py m ulong_type t c o = set_ulong o c
switch_from from depth g py m int64_type t c o = set_int64 py o
switch_from from depth g py m uint64_type t c o = set_uint64 o c
switch_from from depth g py m enum_type t c o = set_enum g py t o c
switch_from from depth g py m flags_type t c o = set_flags g py t o c
switch_from from depth g py m float_type t c o = set_real g.to_float py o
switch_from from depth g py m double_type t c o = set_real (λ b. b) py o
switch_from from depth g py m string_type t c o = set_string py o c
switch_from from depth g py m pointer_type t c o = set_pointer g t o c
switch_from from depth g py m boxed_type t c o = set_boxed from depth g py m t o c
switch_from from depth g py m param_type t c o = set_param o c
switch_from from depth g py m object_type t c o = set_object g t o c
switch_from from depth g py m none_type t c o = set_custom depth g m t o c (stored c)
switch_from from depth g py m other_type t c o = set_custom depth g m t o c (stored c)

-- The first number bounds the calls inside each other, the second the depth of the types.
unfoldable pub value_from_pyobject :
    ℕ → ℕ → Glib → Python → Marshals → ℕ → Content → Object → Answer
unfolding switch_from
value_from_pyobject Prim.Native.Nat.zero depth g py m t c o = out_of_fuel
value_from_pyobject (suc fuel) depth g py m t c o =
    switch_from (value_from_pyobject fuel depth g py m) depth g py m (g.fundamental t) t c o
