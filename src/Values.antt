-- ===== src/Values.antt =====
-- The data of the conversions between Python objects and GValues in gobject/pygtype.c: types,
-- values, objects, and what GLib and Python answer about them.
pub mod TypeFrom
pub mod Lookup
pub mod Numbers
pub mod FromPython
pub mod ToPython
pub mod Param
pub mod Fitting
pub mod Sized
pub mod Simple
pub mod Nested
pub mod Checked
pub mod Typed
pub mod RoundTrip
pub mod Ending
pub mod Recursion
use debian_pygobject.Base.{
  ℕ, ◌^◌, Bool, true, false, Option, none, some, List, [], ◌∷◌, ◌==◌, if◌then◌else◌, CString, ltb,
}
use debian_pygobject.CInt.{ℤ, pos, negsuc, to_long}
use debian_pygobject.Constants.{TypeSystem, GtypeAttr}
use debian_pygobject.Constants.Convert.{Arg}

-- The cases of `switch (G_TYPE_FUNDAMENTAL(type))`, and the types that fall under none of them.
pub data Fundamental : Type 0 where
  interface_type char_type uchar_type boolean_type int_type uint_type : Fundamental
  long_type ulong_type int64_type uint64_type enum_type flags_type : Fundamental
  float_type double_type string_type pointer_type boxed_type : Fundamental
  param_type object_type none_type other_type : Fundamental

-- A Python object, as far as the conversions tell it apart; `int_object` is any int but a bool,
-- enum and flags constants included. A float is the number of its bits. A wrapper has its GObject,
-- and a boxed or pointer wrapper its type and its pointer, NULL being `none`.
mutual
  pub data Object : Type 0 where
    none_object : Object
    bool_object : Bool → Object
    int_object long_object : ℤ → Object
    float_object : ℕ → Object
    text_object : List ℕ → Object
    gobject_object : Option ℕ → Object
    boxed_object pointer_object : ℕ → Option ℕ → Object
    param_object : ℕ → Object
    cobject : Option ℕ → Object
    list_object : Objects → Object
    python_object : ℕ → Object

  pub data Objects : Type 0 where
    no_objects : Objects
    object_item : Object → Objects → Objects
    null_item : Objects → Objects

-- What a GValue holds: a number, the bits of a float, a C string, a pointer (of a boxed value the
-- one that it was copied from), a Python object, a GString, another GValue with its type, or the
-- GValues of a GValueArray.
mutual
  pub data Content : Type 0 where
    number : ℤ → Content
    real : ℕ → Content
    text : Option CString → Content
    pointer : Option ℕ → Content
    python : Object → Content
    gstring : List ℕ → Content
    gvalue : ℕ → Content → Content
    array : Contents → Content

  pub data Contents : Type 0 where
    no_contents : Contents
    item : ℕ → Content → Contents → Contents

-- The object that pyg_type_from_object is given: NULL, None, a class with its `__gtype__`, a GType
-- wrapper, a string, or another object.
pub data Builtin : Type 0 where
  int_class bool_class long_class float_class text_class object_class : Builtin
  other_class : Builtin

pub data TypeArg : Type 0 where
  null_arg none_arg : TypeArg
  class_arg : Builtin → GtypeAttr → TypeArg
  wrapper_arg : ℕ → TypeArg
  text_arg : CString → GtypeAttr → TypeArg
  other_arg : GtypeAttr → TypeArg

-- PySequence_Check, PySequence_Length and PySequence_GetItem; an item that cannot be read is `none`.
pub data Sequence : Type 0 where
  not_sequence no_length : Sequence
  items : List (Option Object) → Sequence

-- How a conversion into a GValue ends: 0 with what the GValue holds then; -1 with what it holds then;
-- -1 with the GValue unset; a recursion that did not end.
pub data Answer : Type 0 where
  stored refused : Content → Answer
  unset out_of_fuel : Answer

-- What GLib answers about types. `is_a` is g_type_is_a, which G_VALUE_HOLDS asks of the type of a
-- value; the last fields are the types that the code names.
pub record Glib : Type 0 where
  pub fundamental : ℕ → Fundamental
  pub standard : Fundamental → ℕ
  pub is_a : ℕ → ℕ → Bool
  pub parent : ℕ → ℕ
  pub type_from_name : CString → ℕ
  -- G_TYPE_CHECK_INSTANCE_TYPE of a GObject
  pub instance_is_a : ℕ → ℕ → Bool
  -- from a double to a float
  pub to_float : ℕ → ℕ
  -- the content that g_value_init makes
  pub initial : ℕ → Content
  pub types : TypeSystem
  pub gobject_gtype : ℕ
  pub py_object_gtype : ℕ
  pub value_gtype : ℕ
  pub value_array_gtype : ℕ
  pub gstring_gtype : ℕ

-- What Python answers about objects. `none` is a pending exception; the numbers are asked of objects
-- that are not numbers themselves.
pub record Python : Type 0 where
  pub str : Object → Option (List ℕ)
  pub is_true : Object → Option Bool
  pub as_long : Object → Option ℤ
  pub as_long_long : Object → Option ℤ
  pub as_double : Object → Option ℕ
  -- PyUnicode_FromObject
  pub unicode : Object → Option (List ℕ)
  pub sequence : Object → Sequence
  -- `type(object)` for pyg_type_from_object
  pub class_of : Object → TypeArg
  -- what pyg_enum_get_value and pyg_flags_get_value see
  pub constant_arg : Object → Arg

-- The functions registered by pyg_register_gtype_custom, by the address of their PyGTypeMarshal.
pub record Marshals : Type 0 where
  pub attached : ℕ → Option ℕ
  pub tovalue : ℕ → Content → Object → Answer
  pub fromvalue : ℕ → Content → Option Object

-- A C string ends at its first NUL.
unfoldable pub c_string : List ℕ → CString
c_string [] = []
c_string (b ∷ bs) = let rest = c_string bs in if b == 0 then [] else b ∷ rest
