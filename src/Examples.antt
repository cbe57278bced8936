-- ===== src/Examples.antt =====
-- Sample types, classes and worlds at which the theorems are applied.
mod Enums
mod Flagged
mod Wrappers
mod Channels
mod Others
mod Values
mod Locks
mod Conversions
mod Emissions
mod Attributes
mod Classes
mod Loops
mod Registry
use debian_pygobject.Base.{
  ℕ, Bool, true, false, ◌||◌, ◌==◌, Option, none, some, List, [], ◌∷◌, if◌then◌else◌, CString,
  codes, bytes_eq,
}
use debian_pygobject.CInt.{ℤ, pos, zeq}
use debian_pygobject.Constants.{
  ValueInfo, TypeSystem, ConstantClass, make_class, World, Result, ok, err,
}
use debian_pygobject.Constants.Registered.{has_value}

abbrev pub red : ValueInfo
red = record { value = pos 0; value_name = codes "COLOR_RED"; value_nick = codes "red" }

abbrev pub green : ValueInfo
green = record { value = pos 1; value_name = codes "COLOR_GREEN"; value_nick = codes "green" }

abbrev pub bold : ValueInfo
bold = record { value = pos 1; value_name = codes "STYLE_BOLD"; value_nick = codes "bold" }

abbrev pub wide : ValueInfo
wide = record { value = pos 2; value_name = codes "STYLE_WIDE"; value_nick = codes "wide" }

abbrev pub thick : ValueInfo
thick = record { value = pos 1; value_name = codes "STYLE_THICK"; value_nick = codes "thick" }

-- An enum type, a flags type, and a flags type with two names for one value.
abbrev pub color : ℕ
color = 7

abbrev pub style : ℕ
style = 8

abbrev pub alias : ℕ
alias = 9

abbrev pub values_of : ℕ → List ValueInfo
values_of t =
    if t == 7
    then red ∷ (green ∷ [])
    else (if t == 8 then bold ∷ (wide ∷ []) else (if t == 9 then bold ∷ (thick ∷ []) else []))

abbrev pub by_value : List ValueInfo → ℤ → Option ValueInfo
by_value [] v = none
by_value (i ∷ is) v = if zeq (i.value) v then some i else by_value is v

abbrev pub by_name : List ValueInfo → CString → Option ValueInfo
by_name [] s = none
by_name (i ∷ is) s = if bytes_eq (i.value_name) s then some i else by_name is s

abbrev pub by_nick : List ValueInfo → CString → Option ValueInfo
by_nick [] s = none
by_nick (i ∷ is) s = if bytes_eq (i.value_nick) s then some i else by_nick is s

abbrev pub types : TypeSystem
types = record {
  type_name = λ t. codes "Sample";
  is_enum = λ t. t == 7;
  is_flags = λ t. (t == 8) || (t == 9);
  class_values = values_of;
  get_value = λ t. by_value (values_of t);
  get_first_value = λ t. by_value (values_of t);
  get_value_by_name = λ t. by_name (values_of t);
  get_value_by_nick = λ t. by_nick (values_of t);
  import_class = λ t. none;
  can_create = λ s. true;
}

abbrev pub empty : World
empty = record {
  next = 0;
  refs = λ a. 0;
  constants = λ a. none;
  class_of = λ t. none;
  exports = [];
}

-- The class and the world of a result.
abbrev pub made : Result (ConstantClass × World) → ConstantClass × World
made (ok r) = r
made (err e) = (make_class [] none 0 [], empty)
