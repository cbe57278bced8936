-- ===== src/Flags.antt =====
-- gobject/pygflags.c: Python classes for flags types, their constants and the bit operators.
pub mod Add
pub mod FromGtype
pub mod Names
use debian_pygobject.Base.{
  ℕ, suc, Bool, true, false, not, ◌&&◌, ◌||◌, Option, none, some, List, [], ◌∷◌, ◌++◌, ◌==◌, leb,
  ltb, if◌then◌else◌, length, or_else, update, CString, codes,
}
use debian_pygobject.CInt.{ℤ, pos, zeq, to_int, and_long, or_long, xor_long}
use debian_pygobject.Constants.{
  ValueInfo, Constant, Dict, no_gtype, not_typecode, typecode, no_values, not_dict, dict,
  ConstantClass, make_class, attach_class, GtypeAttr, ValuesAttr, World, TypeSystem, Operand,
  not_int, plain_int, enum_int, flags_int, IntObject, int_object, constant_object,
  not_implemented_object, exported_class, Result, ok, err, ◌>>=◌, ◌>>◌, guard, attribute_error,
  gtype_not_typecode, values_badly_formed, invalid_value, cannot_create, invalid_type,
  not_this_kind, warning_raised, out_of_bounds, null_dereference, alloc, incref, get_item,
  take_constant,
}
use debian_pygobject.Constants.Register.{register_values}
use debian_pygobject.Constants.Format.{print_long}
use debian_pygobject.Constants.Compare.{
  CompareOp, integer_richcompare, Comparison, not_implemented, answer,
}
use debian_pygobject.Enum.{add_class_export, read_gtype}

unfoldable pub flags_richcompare : Bool → Constant → Operand → CompareOp → Result Comparison
unfolding integer_richcompare
flags_richcompare warnings_raise self not_int op = ok not_implemented
flags_richcompare warnings_raise self (plain_int v) op =
    ok (answer (integer_richcompare self.ival v op))
flags_richcompare warnings_raise self (enum_int t v) op =
    ok (answer (integer_richcompare self.ival v op))
flags_richcompare warnings_raise self (flags_int t v) op =
    if not (t == self.gtype)
    then (if warnings_raise
        then err warning_raised
        else ok (answer (integer_richcompare self.ival v op)))
    else ok (answer (integer_richcompare self.ival v op))

-- `(value & v) == v`
unfoldable pub has_flag : ℤ → ℤ → Bool
unfolding zeq and_long
has_flag value v = zeq (and_long value v) v

-- `none` is the null pointer, for no name at all.
unfoldable pub repr_loop : ℤ → List ValueInfo → Option CString → Option CString
unfolding has_flag zeq
repr_loop value [] retval = retval
repr_loop value (i ∷ is) retval = repr_loop value is (
    if zeq i.value (pos 0)
    then retval
    else (if has_flag value i.value
        then (elim retval [
          | some s ↦ some (s ++ (codes " | " ++ i.value_name))
          | none ↦ some i.value_name
        ])
        else retval))

unfoldable pub generate_repr : TypeSystem → ℕ → ℤ → Option CString
unfolding repr_loop
generate_repr ts gtype value = repr_loop value (ts.class_values gtype) none

unfoldable pub flags_repr : TypeSystem → Constant → CString
unfolding generate_repr print_long
flags_repr ts self = elim (generate_repr ts self.gtype (to_int self.ival)) [
  | some tmp ↦
      codes "<flags " ++ (tmp ++ (codes " of type " ++ (ts.type_name self.gtype ++ codes ">")))
  | none ↦
      codes "<flags "
      ++ (print_long self.ival ++ (codes " of type " ++ (ts.type_name self.gtype ++ codes ">")))
]

unfoldable pub read_flags_values : TypeSystem → ℕ → ValuesAttr → Result Dict
read_flags_values ts t no_values = err attribute_error
read_flags_values ts t not_dict = err values_badly_formed
read_flags_values ts t (dict d) =
    if length d == length (ts.class_values t) then ok d else err values_badly_formed

unfoldable pub flags_new : TypeSystem → ConstantClass → ℤ → World → Result (ℕ × World)
unfolding read_gtype read_flags_values take_constant
flags_new ts cls value w = do
  t ← read_gtype cls.gtype_attr
  d ← read_flags_values ts t cls.values_attr
  take_constant value d w

unfoldable pub flags_add :
    TypeSystem → Option CString → CString → CString → ℕ → World → Result (ConstantClass × World)
unfolding add_class_export register_values
flags_add ts module_ typename prefix gtype w = do
  guard (ts.is_flags gtype) not_this_kind
  guard (ts.can_create typename) cannot_create
  (d, w') ←
      register_values gtype module_ prefix (ts.class_values gtype) []
        (add_class_export module_ typename gtype w)
  ok (attach_class (make_class typename module_ gtype d) gtype w')

-- Unlike pygenum.c, a new object is not referenced a second time.
unfoldable pub flags_object : ℕ → ℤ → ValuesAttr → World → Result (IntObject × World)
unfolding get_item alloc incref
flags_object gtype value no_values w = err null_dereference
flags_object gtype value not_dict w = ok (constant_object w.next, alloc value gtype w)
flags_object gtype value (dict d) w = elim (get_item value d) [
  | none ↦ ok (constant_object w.next, alloc value gtype w)
  | some a ↦ ok (constant_object a, incref a w)
]

unfoldable pub flags_from_gtype : TypeSystem → ℕ → ℤ → World → Result (IntObject × World)
unfolding flags_object flags_add
flags_from_gtype ts gtype value w =
    if gtype == 0
    then err invalid_type
    else elim (or_else (w.class_of gtype) (ts.import_class gtype)) [
      | some cls ↦ flags_object gtype value cls.values_attr w
      | none ↦ elim (flags_add ts none (ts.type_name gtype) [] gtype w) [
        | ok (cls, w') ↦ flags_object gtype value cls.values_attr w'
        | err e ↦ ok (int_object value, w)
      ]
    ]

-- `((PyGFlags*)x)->gtype` of an operand. A plain int has no such field: the word behind the object
-- is read, and `stray` stands for what is found there.
unfoldable pub operand_gtype : ℕ → Operand → ℕ
operand_gtype stray not_int = stray
operand_gtype stray (plain_int v) = stray
operand_gtype stray (enum_int t v) = t
operand_gtype stray (flags_int t v) = t

-- `_PyLong_AS_LONG` of an operand that is an int.
unfoldable pub operand_value : Operand → Option ℤ
operand_value not_int = none
operand_value (plain_int v) = some v
operand_value (enum_int t v) = some v
operand_value (flags_int t v) = some v

-- The operator of the int type, for two operands.
unfoldable pub int_operator : (ℤ → ℤ → ℤ) → Operand → Operand → IntObject
unfolding operand_value
int_operator f a b = elim (operand_value a) [
  | none ↦ not_implemented_object
  | some v ↦ elim (operand_value b) [ none ↦ not_implemented_object | some u ↦ int_object (f v u) ]
]

-- What the three operators share: the `long` result of two flags is passed as a `gint`.
unfoldable pub flags_operator :
    (ℤ → ℤ → ℤ) → TypeSystem → ℕ → Operand → Operand → World → Result (IntObject × World)
unfolding operand_gtype operand_value int_operator flags_from_gtype to_int
flags_operator f ts stray a b w =
    if not (ts.is_flags (operand_gtype stray a)) || not (ts.is_flags (operand_gtype stray b))
    then ok (int_operator f a b, w)
    else elim (operand_value a) [
      | none ↦ err out_of_bounds
      | some v ↦ elim (operand_value b) [
        | none ↦ err out_of_bounds
        | some u ↦ flags_from_gtype ts (operand_gtype stray a) (to_int (f v u)) w
      ]
    ]

unfoldable pub flags_and : TypeSystem → ℕ → Operand → Operand → World → Result (IntObject × World)
unfolding flags_operator and_long
flags_and = flags_operator and_long

unfoldable pub flags_or : TypeSystem → ℕ → Operand → Operand → World → Result (IntObject × World)
unfolding flags_operator or_long
flags_or = flags_operator or_long

unfoldable pub flags_xor : TypeSystem → ℕ → Operand → Operand → World → Result (IntObject × World)
unfolding flags_operator xor_long
flags_xor = flags_operator xor_long

unfoldable pub first_value_name : TypeSystem → Constant → Option CString
first_value_name ts self = elim (ts.get_first_value self.gtype self.ival) [
  | none ↦ none
  | some i ↦ some i.value_name
]

unfoldable pub first_value_nick : TypeSystem → Constant → Option CString
first_value_nick ts self = elim (ts.get_first_value self.gtype self.ival) [
  | none ↦ none
  | some i ↦ some i.value_nick
]

unfoldable pub collect : (ValueInfo → CString) → ℤ → List ValueInfo → List CString
unfolding has_flag
collect name value [] = []
collect name value (i ∷ is) =
    let rest = collect name value is in if has_flag value i.value then name i ∷ rest else rest

unfoldable pub value_names : TypeSystem → Constant → List CString
unfolding collect
value_names ts self = collect (λ i. i.value_name) self.ival (ts.class_values self.gtype)

unfoldable pub value_nicks : TypeSystem → Constant → List CString
unfolding collect
value_nicks ts self = collect (λ i. i.value_nick) self.ival (ts.class_values self.gtype)
