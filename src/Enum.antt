-- ===== src/Enum.antt =====
-- gobject/pygenum.c: Python classes for enum types and the constant objects in them.
pub mod Add
pub mod FromGtype
use debian_pygobject.Base.{
  ℕ, suc, Bool, true, false, not, Option, none, some, List, [], ◌∷◌, ◌++◌, ◌==◌, leb, ltb,
  if◌then◌else◌, length, or_else, update, CString, codes,
}
use debian_pygobject.CInt.{ℤ, zeq}
use debian_pygobject.Constants.{
  ValueInfo, Constant, Dict, no_gtype, not_typecode, typecode, no_values, not_dict, dict,
  ConstantClass, make_class, attach_class, GtypeAttr, ValuesAttr, World, TypeSystem, Operand,
  not_int, plain_int, enum_int, flags_int, IntObject, int_object, constant_object, exported_class,
  Result, ok, err, ◌>>=◌, ◌>>◌, guard, attribute_error, gtype_not_typecode, values_badly_formed,
  invalid_value, cannot_create, invalid_type, not_this_kind, warning_raised, out_of_bounds,
  null_dereference, alloc, incref, get_item, take_constant,
}
use debian_pygobject.Constants.Register.{register_values}
use debian_pygobject.Constants.Format.{print_long}
use debian_pygobject.Constants.Compare.{
  CompareOp, integer_richcompare, Comparison, not_implemented, answer,
}

-- `warnings_raise` says whether PyErr_Warn turns the warning into an exception.
unfoldable pub enum_richcompare : Bool → Constant → Operand → CompareOp → Result Comparison
unfolding integer_richcompare
enum_richcompare warnings_raise self not_int op = ok not_implemented
enum_richcompare warnings_raise self (plain_int v) op =
    ok (answer (integer_richcompare self.ival v op))
enum_richcompare warnings_raise self (flags_int t v) op =
    ok (answer (integer_richcompare self.ival v op))
enum_richcompare warnings_raise self (enum_int t v) op =
    if not (t == self.gtype)
    then (if warnings_raise
        then err warning_raised
        else ok (answer (integer_richcompare self.ival v op)))
    else ok (answer (integer_richcompare self.ival v op))

-- The first value that is equal; the table ends with an entry whose name is NULL.
unfoldable pub find_value : ℤ → List ValueInfo → Option CString
unfolding zeq
find_value v [] = none
find_value v (i ∷ is) = if zeq v i.value then some i.value_name else find_value v is

-- sprintf into `char tmp[256]`: a text of more than 255 bytes is written past its end.
unfoldable pub sprintf_tmp : CString → Result CString
sprintf_tmp s = if ltb (length s) 256 then ok s else err out_of_bounds

unfoldable pub enum_repr : TypeSystem → Constant → Result CString
unfolding find_value sprintf_tmp print_long
enum_repr ts self = elim (find_value self.ival (ts.class_values self.gtype)) [
  | some name ↦
      sprintf_tmp
        (codes "<enum " ++ (name ++ (codes " of type " ++ (ts.type_name self.gtype ++ codes ">"))))
  | none ↦ sprintf_tmp (
      codes "<enum "
      ++ (print_long self.ival ++ (codes " of type " ++ (ts.type_name self.gtype ++ codes ">"))))
]

-- The `__gtype__` and the dict of a class, with the checks that pyg_enum_new makes.
unfoldable pub read_gtype : GtypeAttr → Result ℕ
read_gtype no_gtype = err attribute_error
read_gtype not_typecode = err gtype_not_typecode
read_gtype (typecode t) = ok t

unfoldable pub read_enum_values : TypeSystem → ℕ → ValuesAttr → Result Dict
read_enum_values ts t no_values = err attribute_error
read_enum_values ts t not_dict = err values_badly_formed
read_enum_values ts t (dict d) =
    if ltb (length (ts.class_values t)) (length d) then err values_badly_formed else ok d

-- `EnumClass(value)` gives the constant that the class holds for the value.
unfoldable pub enum_new : TypeSystem → ConstantClass → ℤ → World → Result (ℕ × World)
unfolding read_gtype read_enum_values take_constant
enum_new ts cls value w = do
  t ← read_gtype cls.gtype_attr
  d ← read_enum_values ts t cls.values_attr
  take_constant value d w

unfoldable pub add_class_export : Option CString → CString → ℕ → World → World
add_class_export none name t w = w
add_class_export (some m) name t w = record w { exports = (name, exported_class t) ∷ w.exports }

-- The class is attached to the type before its dict is filled; the model attaches it filled.
unfoldable pub enum_add :
    TypeSystem → Option CString → CString → CString → ℕ → World → Result (ConstantClass × World)
unfolding add_class_export register_values
enum_add ts module_ typename prefix gtype w = do
  guard (ts.is_enum gtype) not_this_kind
  guard (ts.can_create typename) cannot_create
  (d, w') ←
      register_values gtype module_ prefix (ts.class_values gtype) []
        (add_class_export module_ typename gtype w)
  ok (attach_class (make_class typename module_ gtype d) gtype w')

-- What follows the lookup of the class in pyg_enum_from_gtype. `Py_INCREF (retval)` is reached with
-- a constant of the dict and with a new one alike.
unfoldable pub enum_object : ℕ → ℤ → ValuesAttr → World → Result (IntObject × World)
unfolding get_item alloc incref
enum_object gtype value no_values w = err null_dereference
enum_object gtype value not_dict w =
    ok (constant_object w.next, incref w.next (alloc value gtype w))
enum_object gtype value (dict d) w = elim (get_item value d) [
  | none ↦ ok (constant_object w.next, incref w.next (alloc value gtype w))
  | some a ↦ ok (constant_object a, incref a w)
]

unfoldable pub enum_from_gtype : TypeSystem → ℕ → ℤ → World → Result (IntObject × World)
unfolding enum_object enum_add
enum_from_gtype ts gtype value w =
    if gtype == 0
    then err invalid_type
    else elim (or_else (w.class_of gtype) (ts.import_class gtype)) [
      | some cls ↦ enum_object gtype value cls.values_attr w
      | none ↦ elim (enum_add ts none (ts.type_name gtype) [] gtype w) [
        | ok (cls, w') ↦ enum_object gtype value cls.values_attr w'
        | err e ↦ ok (int_object value, w)
      ]
    ]

-- `g_enum_get_value` gives NULL for a value outside the class, and its field is read at once.
unfoldable pub enum_get_value_name : TypeSystem → Constant → Result CString
enum_get_value_name ts self = elim (ts.get_value self.gtype self.ival) [
  | none ↦ err null_dereference
  | some i ↦ ok i.value_name
]

unfoldable pub enum_get_value_nick : TypeSystem → Constant → Result CString
enum_get_value_nick ts self = elim (ts.get_value self.gtype self.ival) [
  | none ↦ err null_dereference
  | some i ↦ ok i.value_nick
]
