-- ===== src/Examples/Flagged.antt =====
-- The theorems on flags types, conversions and names at sample types.
use debian_pygobject.Base.{◌≡◌, ◌≢◌, refl, true, false, none, some, [], ◌⊎◌, ◌+◌, ℕ, codes, arith}
use debian_pygobject.CInt.{pos, zeq, to_int, or_long}
use debian_pygobject.Constants.{
  ok, err, World, ConstantClass, Constant, invalid_value, values_badly_formed, incref,
  constant_object, int_object, plain_int, flags_int, alloc, set_item, get_item, put_item, decref,
  attach_class,
}
use debian_pygobject.Constants.Register.{register_values, export_constant}
use debian_pygobject.Constants.Registered.{has_value}
use debian_pygobject.Constants.ClassOf.{IsClassOf}
use debian_pygobject.Enum.{add_class_export}
use debian_pygobject.Flags.{flags_add, flags_new, flags_from_gtype, flags_operator}
use debian_pygobject.Flags.Add.{flags_new-flags_add, flags_new_duplicate, flags_add-IsClassOf}
use debian_pygobject.Flags.FromGtype.{flags_from_gtype_lem, flags_operator_lem}
use debian_pygobject.Examples.{style, alias, types, empty, made}

abbrev added : ConstantClass × World
added = made (flags_add types none (codes "Style") [] style empty)

added-ok : flags_add types none (codes "Style") [] style empty ≡ ok (added.0, added.1)
unfolding flags_add add_class_export register_values export_constant set_item get_item put_item
    incref decref alloc attach_class zeq
added-ok = refl

style_class : IsClassOf types style (added.0) (added.1)
style_class =
    flags_add-IsClassOf types none (codes "Style") [] style empty (added.0) (added.1) added-ok

style-nonzero : style ≢ 0
style-nonzero = λ e. omega arith

abbrev aliased : ConstantClass × World
aliased = made (flags_add types none (codes "Alias") [] alias empty)

aliased-ok : flags_add types none (codes "Alias") [] alias empty ≡ ok (aliased.0, aliased.1)
unfolding flags_add add_class_export register_values export_constant set_item get_item put_item
    incref decref alloc attach_class zeq
aliased-ok = refl

-- Bold and wide.
abbrev bold_wide : Constant
bold_wide = record { ival = pos 3; gtype = style }

flags_new-flags_add_example :
    ((has_value (pos 2) (types.class_values style) ≡ true)
      × ((a : ℕ) × (flags_new types (added.0) (pos 2) (added.1) ≡ ok (a, incref a (added.1)))
          × ((added.1).constants a ≡ some (record { ival = (pos 2); gtype = style }))))
    ⊎ ((has_value (pos 2) (types.class_values style) ≡ false)
        × (flags_new types (added.0) (pos 2) (added.1) ≡ err (invalid_value (pos 2))))
unfolding zeq
flags_new-flags_add_example =
    flags_new-flags_add types none (codes "Style") [] style empty (added.0) (added.1) added-ok
      (pos 2) refl

flags_new_duplicate_example :
    flags_new types (aliased.0) (pos 1) (aliased.1) ≡ err values_badly_formed
unfolding zeq
flags_new_duplicate_example =
    flags_new_duplicate types none (codes "Alias") [] alias empty (aliased.0) (aliased.1) aliased-ok
      (pos 1) refl

flags_from_gtype_lem_example :
    (a : ℕ) × (w' : World) × (flags_from_gtype types style (pos 2) (added.1)
      ≡ ok (constant_object a, w'))
    × (w'.constants a ≡ some (record { ival = (pos 2); gtype = style }))
    × (((has_value (pos 2) (types.class_values style) ≡ true) × (w'.refs a ≡ (added.1).refs a + 1))
        ⊎ ((has_value (pos 2) (types.class_values style) ≡ false) × (w'.refs a ≡ 1)))
flags_from_gtype_lem_example =
    flags_from_gtype_lem types style (added.0) (pos 2) (added.1) style_class style-nonzero

flags_operator_lem_example :
    ((a : ℕ) × (w' : World) × (flags_operator or_long types 0
          (flags_int style (pos 2))
          (flags_int alias (pos 1))
          (added.1)
        ≡ ok (constant_object a, w'))
      × (w'.constants a ≡ some (record { ival = to_int (or_long (pos 2) (pos 1)); gtype = style })))
    × (flags_operator or_long types 0 (flags_int style (pos 2)) (plain_int (pos 1)) (added.1)
        ≡ ok (int_object (or_long (pos 2) (pos 1)), (added.1)))
    × (flags_operator or_long types 0 (plain_int (pos 2)) (flags_int alias (pos 1)) (added.1)
        ≡ ok (int_object (or_long (pos 2) (pos 1)), (added.1)))
flags_operator_lem_example =
    flags_operator_lem or_long types 0 style alias (added.0) (pos 2) (pos 1) (added.1) refl refl
      refl style-nonzero style_class
