-- ===== src/Values/ToPython.antt =====
-- pyg_value_as_pyobject of gobject/pygtype.c.
use debian_pygobject.Base.{
  ℕ, Bool, true, false, Option, none, some, List, [], ◌∷◌, if◌then◌else◌, ◌^◌, ltb, CString,
}
use debian_pygobject.CInt.{ℤ, pos, negsuc, zeq}
use debian_pygobject.Values.{
  Glib, Marshals, Fundamental, interface_type, char_type, uchar_type, boolean_type, int_type,
  uint_type, long_type, ulong_type, int64_type, uint64_type, enum_type, flags_type, float_type,
  double_type, string_type, pointer_type, boxed_type, param_type, object_type, none_type,
  other_type, Object, none_object, bool_object, int_object, long_object, float_object, text_object,
  list_object, no_objects, object_item, null_item, Content, number, real, text, pointer, python,
  gstring, gvalue, array, Contents, no_contents, item,
}
use debian_pygobject.Values.Lookup.{type_lookup}

-- What the conversion returns: an object, NULL with an exception, or nothing as it read through a
-- null pointer or did not end.
pub data Converted : Type 0 where
  object : Object → Converted
  no_object null_dereference lookup_out_of_fuel : Converted

-- The wrappers that the code of the other files makes: pygobject_new, pyg_pointer_new, pyg_boxed_new
-- with its two flags, pyg_param_spec_new, pyg_enum_from_gtype and pyg_flags_from_gtype.
pub record Wrapping : Type 0 where
  pub wrap_object : Option ℕ → Converted
  pub wrap_pointer : ℕ → Option ℕ → Converted
  pub wrap_boxed : ℕ → Option ℕ → Bool → Bool → Converted
  pub wrap_param : Option ℕ → Converted
  pub wrap_enum : ℕ → ℤ → Converted
  pub wrap_flags : ℕ → ℤ → Converted

-- g_value_get_…: 0 or NULL where the GValue holds something else.
unfoldable pub get_number : Content → ℤ
get_number (number v) = v
get_number _ = pos 0

unfoldable pub get_pointer : Content → Option ℕ
get_pointer (pointer a) = a
get_pointer _ = none

unfoldable pub get_string : Content → Option CString
get_string (text s) = s
get_string _ = none

unfoldable pub get_real : Content → ℕ
get_real (real b) = b
get_real _ = 0

-- The byte of a gint8 or guint8, as a string of length 1.
unfoldable pub char_text : ℤ → List ℕ
char_text (pos n) = n ∷ []
char_text (negsuc n) = (Prim.Native.Nat.◌-◌ 255 n) ∷ []

-- An int where a `long` is enough.
unfoldable pub int_or_long : ℤ → Object
int_or_long (pos n) = if ltb n (2 ^ 63) then int_object (pos n) else long_object (pos n)
int_or_long (negsuc n) = if ltb n (2 ^ 63) then int_object (negsuc n) else long_object (negsuc n)

unfoldable pub string_object : Option CString → Object
string_object none = none_object
string_object (some s) = text_object s

-- A Python object that is held as a boxed value; NULL is None.
unfoldable pub held_object : Content → Object
held_object (python o) = o
held_object _ = none_object

unfoldable pub gstring_object : Content → Converted
gstring_object (gstring s) = object (text_object s)
gstring_object _ = null_dereference

unfoldable pub from_custom : ℕ → Glib → Marshals → ℕ → Content → Converted → Converted
unfolding type_lookup
from_custom depth g m t c otherwise = elim (type_lookup depth g m t) [
  | none ↦ lookup_out_of_fuel
  | some none ↦ otherwise
  | some (some tm) ↦ elim (m.fromvalue tm c) [ none ↦ no_object | some o ↦ object o ]
]

-- The case G_TYPE_BOXED; `inner` and `list` are what a GValue and a GValueArray that the value holds
-- are converted to.
unfoldable pub boxed_as_pyobject :
    ℕ → Glib → Marshals → Wrapping → Bool → ℕ → Content → Converted → Converted → Converted
unfolding held_object gstring_object from_custom get_pointer
boxed_as_pyobject depth g m w copy t c inner list =
    if g.is_a t g.py_object_gtype
    then object (held_object c)
    else if g.is_a t g.value_gtype
    then inner
    else if g.is_a t g.value_array_gtype
    then list
    else if g.is_a t g.gstring_gtype
    then gstring_object c
    else from_custom depth g m t c (w.wrap_boxed t (get_pointer c) copy copy)

-- The switch; what is under none of its cases is a TypeError.
unfoldable pub switch_as :
    ℕ
    → Glib
    → Marshals
    → Wrapping
    → Bool
    → Fundamental
    → ℕ
    → Content
    → Converted
    → Converted
    → Converted
unfolding get_number get_pointer get_string get_real char_text int_or_long string_object
    boxed_as_pyobject from_custom
switch_as depth g m w copy interface_type t c inner list =
    if g.is_a t g.gobject_gtype then w.wrap_object (get_pointer c) else no_object
switch_as depth g m w copy char_type t c inner list =
    object (text_object (char_text (get_number c)))
switch_as depth g m w copy uchar_type t c inner list =
    object (text_object (char_text (get_number c)))
switch_as depth g m w copy boolean_type t c inner list =
    object (bool_object (if zeq (get_number c) (pos 0) then false else true))
switch_as depth g m w copy int_type t c inner list = object (int_object (get_number c))
switch_as depth g m w copy uint_type t c inner list = object (int_object (get_number c))
switch_as depth g m w copy long_type t c inner list = object (int_object (get_number c))
switch_as depth g m w copy ulong_type t c inner list = object (int_or_long (get_number c))
switch_as depth g m w copy int64_type t c inner list = object (int_or_long (get_number c))
switch_as depth g m w copy uint64_type t c inner list = object (int_or_long (get_number c))
switch_as depth g m w copy enum_type t c inner list = w.wrap_enum t (get_number c)
switch_as depth g m w copy flags_type t c inner list = w.wrap_flags t (get_number c)
switch_as depth g m w copy float_type t c inner list = object (float_object (get_real c))
switch_as depth g m w copy double_type t c inner list = object (float_object (get_real c))
switch_as depth g m w copy string_type t c inner list = object (string_object (get_string c))
switch_as depth g m w copy pointer_type t c inner list = w.wrap_pointer t (get_pointer c)
switch_as depth g m w copy boxed_type t c inner list =
    boxed_as_pyobject depth g m w copy t c inner list
switch_as depth g m w copy param_type t c inner list = w.wrap_param (get_pointer c)
switch_as depth g m w copy object_type t c inner list = w.wrap_object (get_pointer c)
switch_as depth g m w copy none_type t c inner list = from_custom depth g m t c no_object
switch_as depth g m w copy other_type t c inner list = from_custom depth g m t c no_object

-- PyList_SET_ITEM: an item that could not be converted is a NULL in the list.
unfoldable pub cons_item : Converted → Converted → Converted
cons_item (object o) (object (list_object os)) = object (list_object (object_item o os))
cons_item no_object (object (list_object os)) = object (list_object (null_item os))
cons_item (object o) rest = rest
cons_item no_object rest = rest
cons_item other rest = other

unfoldable mutual
  unfolding switch_as cons_item

  pub value_as_pyobject : ℕ → Glib → Marshals → Wrapping → Bool → ℕ → Content → Converted
  value_as_pyobject depth g m w copy t (gvalue u c) =
      switch_as depth g m w copy (g.fundamental t) t (gvalue u c)
        (value_as_pyobject depth g m w copy u c) null_dereference
  value_as_pyobject depth g m w copy t (array cs) =
      switch_as depth g m w copy (g.fundamental t) t (array cs) null_dereference
        (list_of_values depth g m w copy cs)
  value_as_pyobject depth g m w copy t c =
      switch_as depth g m w copy (g.fundamental t) t c null_dereference null_dereference

  pub list_of_values : ℕ → Glib → Marshals → Wrapping → Bool → Contents → Converted
  list_of_values depth g m w copy no_contents = object (list_object no_objects)
  list_of_values depth g m w copy (item t c cs) =
      cons_item (value_as_pyobject depth g m w copy t c) (list_of_values depth g m w copy cs)
