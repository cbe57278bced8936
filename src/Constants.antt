-- ===== src/Constants.antt =====
-- What gobject/pygenum.c and gobject/pygflags.c share: the values of a GLib class, the Python
-- classes and constant objects made for it, and the store that holds them.
pub mod ClassOf
pub mod Compare
pub mod Convert
pub mod Converted
pub mod Format
pub mod Prefix
pub mod Stripped
pub mod Register
pub mod Registered
pub mod Sizes
use debian_pygobject.Base.{
  ℕ, suc, ◌+◌, ◌-◌, ◌≡◌, refl, Bool, true, false, Option, none, some, List, [], ◌∷◌, ◌==◌,
  if◌then◌else◌, update, CString, arith,
}
use debian_pygobject.CInt.{ℤ, zeq}

-- GEnumValue and GFlagsValue.
pub record ValueInfo : Type 0 where
  pub value : ℤ
  pub value_name : CString
  pub value_nick : CString

-- PyGEnum and PyGFlags: a Python int with a type.
pub record Constant : Type 0 where
  pub ival : ℤ
  pub gtype : ℕ

-- A dict from ints to objects, which are addresses.
abbrev pub Dict : Type 0
Dict = List (ℤ × ℕ)

-- The `__gtype__` and `__enum_values__` (or `__flags_values__`) attributes of a class, which
-- Python code may have changed.
pub data GtypeAttr : Type 0 where
  no_gtype not_typecode : GtypeAttr
  typecode : ℕ → GtypeAttr

pub data ValuesAttr : Type 0 where
  no_values not_dict : ValuesAttr
  dict : Dict → ValuesAttr

-- A Python class for an enum or flags type.
pub record ConstantClass : Type 0 where
  pub class_name : CString
  pub class_module : Option CString
  pub gtype_attr : GtypeAttr
  pub values_attr : ValuesAttr

abbrev pub make_class : CString → Option CString → ℕ → Dict → ConstantClass
make_class name m t d = record {
  class_name = name;
  class_module = m;
  gtype_attr = typecode t;
  values_attr = dict d;
}

-- The errors of the two files, one for each place that raises one; `out_of_bounds` is a read or a
-- write outside an array, `null_dereference` one through a null pointer.
pub data ConstantError : Type 0 where
  attribute_error gtype_not_typecode values_badly_formed cannot_create : ConstantError
  invalid_value : ℤ → ConstantError
  invalid_type not_this_kind warning_raised no_attached_type unknown_name : ConstantError
  out_of_bounds null_dereference : ConstantError

pub data Result {ℓ} (A : Type ℓ) : Type ℓ where
  ok : A → Result A
  err : ConstantError → Result A

-- `if (!condition) { PyErr_…; return NULL; }`
abbrev pub guard : Bool → ConstantError → Result (Unit {0})
guard false e = err e
guard true e = ok tt

infixl 5 ◌>>◌ ◌>>=◌
abbrev pub ◌>>=◌ {ℓ₁ ℓ₂} : {X : Type ℓ₁} {Y : Type ℓ₂} → Result X → (X → Result Y) → Result Y
err e >>= next = err e
ok x >>= next = next x

-- A chain succeeds only where its first part does.
pub >>=-eq-ok {ℓ₁ ℓ₂} :
    {X : Type ℓ₁} {Y : Type ℓ₂} (first : Result X) (next : X → Result Y) {y : Y}
    → (first >>= next) ≡ ok y
    → (x : X) × (first ≡ ok x) × (next x ≡ ok y)
>>=-eq-ok (err e) next h = cc
>>=-eq-ok (ok x) next h = (x, refl, h)

abbrev pub ◌>>◌ {ℓ₁} : {Y : Type ℓ₁} → Result (Unit {0}) → Result Y → Result Y
check >> rest = check >>= λ _. rest

-- What a module gets by PyModule_AddObject: the class of a type, or a constant.
pub data Export : Type 0 where
  exported_class : ℕ → Export
  exported_constant : ℕ → Export

-- The objects by address, with their reference counts; the class that is attached to a type under
-- `pygenum_class_key` or `pygflags_class_key`; what the modules got, newest first.
pub record World : Type 0 where
  pub next : ℕ
  pub refs : ℕ → ℕ
  pub constants : ℕ → Option Constant
  pub class_of : ℕ → Option ConstantClass
  pub exports : List (CString × Export)

-- GLib's type system and the typelib importer, which are not part of this program.
pub record TypeSystem : Type 0 where
  pub type_name : ℕ → CString
  pub is_enum : ℕ → Bool
  pub is_flags : ℕ → Bool
  pub class_values : ℕ → List ValueInfo
  -- `g_enum_get_value`, `g_flags_get_first_value`, and the lookups by name and by nick
  pub get_value : ℕ → ℤ → Option ValueInfo
  pub get_first_value : ℕ → ℤ → Option ValueInfo
  pub get_value_by_name : ℕ → CString → Option ValueInfo
  pub get_value_by_nick : ℕ → CString → Option ValueInfo
  -- `pygi_type_import_by_g_type`
  pub import_class : ℕ → Option ConstantClass
  -- whether `type(name, bases, dict)` succeeds
  pub can_create : CString → Bool

-- The other operand of a comparison or of an operator: no int, an int, a GEnum or a GFlags with its
-- type.
pub data Operand : Type 0 where
  not_int : Operand
  plain_int : ℤ → Operand
  enum_int flags_int : ℕ → ℤ → Operand

-- What a conversion to Python or an operator returns: an int, a constant object, or NotImplemented.
pub data IntObject : Type 0 where
  int_object : ℤ → IntObject
  constant_object : ℕ → IntObject
  not_implemented_object : IntObject

-- `tp_alloc`, and the two fields that are set after it.
unfoldable pub alloc : ℤ → ℕ → World → World
alloc v t w = record w {
  next = suc w.next;
  refs = update w.refs w.next 1;
  constants = update w.constants w.next (some (record { ival = v; gtype = t }));
}

unfoldable pub incref : ℕ → World → World
incref a w = record w { refs = update w.refs a (w.refs a + 1) }

-- An object whose count falls to 0 is not reclaimed here: its address is never used again.
unfoldable pub decref : ℕ → World → World
decref a w = record w { refs = update w.refs a (w.refs a - 1) }

unfoldable pub get_item : ℤ → Dict → Option ℕ
unfolding zeq
get_item k [] = none
get_item k ((j, a) ∷ d) = if zeq j k then some a else get_item k d

unfoldable pub put_item : ℤ → ℕ → Dict → Dict
unfolding zeq
put_item k a [] = (k, a) ∷ []
put_item k a ((j, b) ∷ d) = if zeq j k then (k, a) ∷ d else (j, b) ∷ put_item k a d

-- PyDict_SetItem: the new value is referenced, the one that it replaces is released.
unfoldable pub set_item : ℤ → ℕ → Dict → World → Dict × World
unfolding get_item put_item incref decref
set_item k a d w =
    (put_item k a d, elim (get_item k d) [ none ↦ incref a w | some b ↦ decref b (incref a w) ])

-- g_type_set_qdata(gtype, key, stub)
unfoldable pub attach_class : ConstantClass → ℕ → World → ConstantClass × World
attach_class cls t w = (cls, record w { class_of = update w.class_of t (some cls) })

-- The last lines of pyg_enum_new and pyg_flags_new: the constant of the dict, referenced once more.
unfoldable pub take_constant : ℤ → Dict → World → Result (ℕ × World)
unfolding get_item incref
take_constant value d w = elim (get_item value d) [
  | none ↦ err (invalid_value value)
  | some a ↦ ok (a, incref a w)
]

pub take_constant-some :
    (v : ℤ) (d : Dict) (w : World) {a : ℕ}
    → get_item v d ≡ some a
    → take_constant v d w ≡ ok (a, incref a w)
unfolding take_constant
take_constant-some v d w e = ground arith

pub take_constant-none :
    (v : ℤ) (d : Dict) (w : World)
    → get_item v d ≡ none
    → take_constant v d w ≡ err (invalid_value v)
unfolding take_constant
take_constant-none v d w e = ground arith
