-- ===== src/Constants/Convert.antt =====
-- pyg_enum_get_value and pyg_flags_get_value of gobject/pygtype.c: from a Python object to the
-- `gint` of an enum or flags value. The `gint` that is stored is returned; the Python exceptions are
-- the errors.
use debian_pygobject.Base.{
  ℕ, ◌^◌, Option, none, some, List, [], ◌∷◌, ltb, if◌then◌else◌, or_else, CString,
}
use debian_pygobject.CInt.{ℤ, pos, negsuc, to_int, or_long}
use debian_pygobject.Constants.{
  ValueInfo, TypeSystem, Result, ok, err, no_attached_type, unknown_name, not_this_kind,
}

-- The Python objects that the two functions tell apart. An item of a tuple is the text that
-- `_PyUnicode_AsString` reads from it, if there is one.
pub data Arg : Type 0 where
  null : Arg
  int_arg : ℤ → Arg
  long_arg : ℤ → Arg
  text_arg : CString → Arg
  tuple_arg : List (Option CString) → Arg
  other_arg : Arg

-- PyLong_AsLong and PyLong_AsLongLong: -1 (and a pending OverflowError) outside their range.
unfoldable pub as_long : ℤ → ℤ
as_long (pos n) = if ltb n (2 ^ 63) then pos n else negsuc 0
as_long (negsuc n) = if ltb n (2 ^ 63) then negsuc n else negsuc 0

-- By full name first, then by nick.
unfoldable pub look_up : TypeSystem → ℕ → CString → Option ValueInfo
look_up ts t s = or_else (ts.get_value_by_name t s) (ts.get_value_by_nick t s)

-- `none` is the type G_TYPE_NONE: the lookups in no class find nothing, and the error is replaced.
unfoldable pub text_value : TypeSystem → Option ℕ → CString → Result ℤ
unfolding look_up
text_value ts none s = err unknown_name
text_value ts (some t) s = elim (look_up ts t s) [ none ↦ err unknown_name | some i ↦ ok i.value ]

unfoldable pub enum_get_value : TypeSystem → Option ℕ → Arg → Result ℤ
unfolding text_value as_long
enum_get_value ts t null = ok (pos 0)
enum_get_value ts t (int_arg v) = ok (to_int v)
enum_get_value ts t (long_arg v) = ok (to_int (as_long v))
enum_get_value ts t (text_arg s) = text_value ts t s
enum_get_value ts t (tuple_arg xs) = err not_this_kind
enum_get_value ts t other_arg = err not_this_kind

-- The loop over a tuple, with the bits gathered so far.
unfoldable pub tuple_value : TypeSystem → ℕ → List (Option CString) → ℤ → Result ℤ
unfolding look_up
tuple_value ts t [] val = ok val
tuple_value ts t (none ∷ xs) val = err unknown_name
tuple_value ts t (some s ∷ xs) val =
    let rest = λ (v : ℤ). tuple_value ts t xs v in
    elim (look_up ts t s) [ none ↦ err unknown_name | some i ↦ rest (to_int (or_long val i.value)) ]

unfoldable pub flags_get_value : TypeSystem → Option ℕ → Arg → Result ℤ
unfolding text_value as_long tuple_value
flags_get_value ts t null = ok (pos 0)
flags_get_value ts t (int_arg v) = ok (to_int v)
flags_get_value ts t (long_arg v) = ok (to_int (as_long v))
flags_get_value ts t (text_arg s) = elim (text_value ts t s) [
  | ok v ↦ ok (to_int v)
  | err e ↦ err e
]
flags_get_value ts none (tuple_arg []) = err no_attached_type
flags_get_value ts none (tuple_arg (x ∷ xs)) = err unknown_name
flags_get_value ts (some t) (tuple_arg xs) = tuple_value ts t xs (pos 0)
flags_get_value ts t other_arg = err not_this_kind
