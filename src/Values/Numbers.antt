-- ===== src/Values/Numbers.antt =====
-- The cases of pyg_value_from_pyobject of gobject/pygtype.c that store a number, a float or a text.
use debian_pygobject.Base.{
  ℕ, ◌%◌, ◌-◌, ◌^◌, Bool, true, false, not, Option, none, some, List, [], ◌∷◌, ltb, if◌then◌else◌,
}
use debian_pygobject.CInt.{ℤ, pos, negsuc, to_int, to_long}
use debian_pygobject.Constants.{Result, ok, err}
use debian_pygobject.Constants.Convert.{
  Arg, int_arg, long_arg, text_arg, enum_get_value, flags_get_value,
}
use debian_pygobject.Values.{
  Glib, Python, Object, none_object, bool_object, int_object, long_object, text_object,
  float_object, Content, number, real, text, Answer, stored, refused, unset, c_string,
}

-- The number of an int, for which PyInt_Check holds; a long is none.
unfoldable pub int_value : Object → Option ℤ
int_value (bool_object b) = some (if b then pos 1 else pos 0)
int_value (int_object v) = some (to_long v)
int_value _ = none

-- A long that fits a C `long`.
unfoldable pub fits_long : ℤ → Bool
fits_long (pos n) = ltb n (2 ^ 63)
fits_long (negsuc n) = ltb n (2 ^ 63)

-- PyInt_AsLong and PyLong_AsLongLong, with what they answer for other objects.
unfoldable pub as_signed : (Object → Option ℤ) → Object → Option ℤ
unfolding int_value fits_long
as_signed other (long_object v) = if fits_long v then some v else none
as_signed other (bool_object b) = int_value (bool_object b)
as_signed other (int_object v) = int_value (int_object v)
as_signed other o = elim (other o) [ none ↦ none | some v ↦ some (to_long v) ]

-- PyLong_AsUnsignedLong and PyLong_AsUnsignedLongLong: an exception unless a long fits.
unfoldable pub as_unsigned : Object → Option ℕ
as_unsigned (long_object (pos n)) = if ltb n (2 ^ 64) then some n else none
as_unsigned _ = none

-- PyObject_Str, and what it gives for a string.
unfoldable pub object_str : Python → Object → Option (List ℕ)
object_str py (text_object s) = some s
object_str py o = py.str o

-- Setting the value, then `if (PyErr_Occurred())`.
unfoldable pub set_number : (ℤ → ℤ) → Option ℤ → Answer
set_number conv none = unset
set_number conv (some v) = stored (number (conv v))

unfoldable pub first_byte : List ℕ → ℕ
first_byte [] = 0
first_byte (b ∷ bs) = b % 256

unfoldable pub to_char : ℕ → ℤ
to_char b = if ltb b 128 then pos b else negsuc (255 - b)

unfoldable pub set_char : Python → Object → Content → Answer
unfolding object_str to_char first_byte
set_char py o c = elim (object_str py o) [
  | none ↦ refused c
  | some s ↦ stored (number (to_char (first_byte s)))
]

-- An int from 0 to the bound, or else refused.
unfoldable pub set_bounded : ℕ → ℤ → Content → Answer
set_bounded top (pos n) c = if ltb n top then stored (number (pos n)) else refused c
set_bounded top (negsuc n) c = refused c

unfoldable pub set_uchar : Python → Object → Content → Answer
unfolding int_value set_bounded object_str first_byte
set_uchar py o c = elim (int_value o) [
  | some v ↦ set_bounded 256 v c
  | none ↦ elim (object_str py o) [
    | none ↦ refused c
    | some s ↦ stored (number (pos (first_byte s)))
  ]
]

unfoldable pub is_true : Python → Object → Option Bool
is_true py none_object = some false
is_true py (bool_object b) = some b
is_true py o = py.is_true o

unfoldable pub set_boolean : Python → Object → Answer
unfolding is_true
set_boolean py o = elim (is_true py o) [
  | none ↦ unset
  | some b ↦ stored (number (if b then pos 1 else pos 0))
]

unfoldable pub set_int : Python → Object → Answer
unfolding set_number as_signed
set_int py o = set_number to_int (as_signed py.as_long o)

unfoldable pub set_long : Python → Object → Answer
unfolding set_number as_signed
set_long py o = set_number (λ v. v) (as_signed py.as_long o)

unfoldable pub set_int64 : Python → Object → Answer
unfolding set_number as_signed
set_int64 py o = set_number (λ v. v) (as_signed py.as_long_long o)

-- `(guint)` of an unsigned long.
unfoldable pub set_uint : Object → Content → Answer
unfolding int_value set_bounded as_unsigned
set_uint o c = elim (int_value o) [
  | some v ↦ set_bounded (2 ^ 32) v c
  | none ↦ elim (as_unsigned o) [ none ↦ unset | some n ↦ stored (number (pos (n % 2 ^ 32))) ]
]

unfoldable pub set_ulong : Object → Content → Answer
unfolding int_value set_bounded as_unsigned
set_ulong o c = elim (int_value o) [
  | some v ↦ set_bounded (2 ^ 63) v c
  | none ↦ elim (as_unsigned o) [ none ↦ unset | some n ↦ stored (number (pos n)) ]
]

-- PyLong_Check
abbrev pub is_long : Object → Bool
is_long (long_object v) = true
is_long _ = false

unfoldable pub set_uint64 : Object → Content → Answer
unfolding int_value set_bounded as_unsigned
set_uint64 o c = elim (int_value o) [
  | some v ↦ set_bounded (2 ^ 63) v c
  | none ↦
      if is_long o
      then elim (as_unsigned o) [ none ↦ unset | some n ↦ stored (number (pos n)) ]
      else refused c
]

unfoldable pub constant_arg : Python → Object → Arg
constant_arg py (int_object v) = int_arg v
constant_arg py (bool_object b) = int_arg (if b then pos 1 else pos 0)
constant_arg py (long_object v) = long_arg v
constant_arg py (text_object s) = text_arg (c_string s)
constant_arg py o = py.constant_arg o

-- PyLong_AsLongLong of a long that is too large leaves its exception pending.
unfoldable pub overflows : Arg → Bool
unfolding fits_long
overflows (long_arg v) = not (fits_long v)
overflows _ = false

-- Both kinds of constant: the conversion that failed cleared its exception.
unfoldable pub set_constant : Result ℤ → Bool → Content → Answer
set_constant (err e) pending c = refused c
set_constant (ok v) pending c = if pending then unset else stored (number v)

unfoldable pub set_enum : Glib → Python → ℕ → Object → Content → Answer
unfolding set_constant constant_arg overflows
set_enum g py t o c =
    let arg = constant_arg py o in
    set_constant (enum_get_value g.types (some t) arg) (overflows arg) c

unfoldable pub set_flags : Glib → Python → ℕ → Object → Content → Answer
unfolding set_constant constant_arg overflows
set_flags g py t o c =
    let arg = constant_arg py o in
    set_constant (flags_get_value g.types (some t) arg) (overflows arg) c

unfoldable pub as_double : Python → Object → Option ℕ
as_double py (float_object b) = some b
as_double py o = py.as_double o

unfoldable pub set_real : (ℕ → ℕ) → Python → Object → Answer
unfolding as_double
set_real narrow py o = elim (as_double py o) [ none ↦ unset | some b ↦ stored (real (narrow b)) ]

-- None is NULL; any other object is its `str`, up to the first NUL.
unfoldable pub set_string : Python → Object → Content → Answer
unfolding object_str
set_string py none_object c = stored (text none)
set_string py o c = elim (object_str py o) [
  | none ↦ refused c
  | some s ↦ stored (text (some (c_string s)))
]
