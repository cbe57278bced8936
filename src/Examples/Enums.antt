-- ===== src/Examples/Enums.antt =====
-- The theorems on enum types at an enum with two values.
use debian_pygobject.Base.{
  List, ◌≡◌, ◌≢◌, refl, true, false, none, some, [], ◌∷◌, ◌⊎◌, ℕ, codes, arith,
}
use debian_pygobject.CInt.{ℤ, pos, zeq}
use debian_pygobject.Constants.{
  ValueInfo, ok, err, World, ConstantClass, invalid_value, incref, constant_object, alloc, set_item,
  get_item, put_item, decref, attach_class,
}
use debian_pygobject.Constants.Register.{register_values, export_constant}
use debian_pygobject.Constants.Registered.{has_value}
use debian_pygobject.Constants.ClassOf.{IsClassOf}
use debian_pygobject.Enum.{enum_add, enum_new, enum_from_gtype, add_class_export}
use debian_pygobject.Enum.Add.{enum_new-enum_add, enum_add-IsClassOf}
use debian_pygobject.Enum.FromGtype.{enum_from_gtype_lem}
use debian_pygobject.Examples.{by_value, color, types, empty, made}

abbrev added : ConstantClass × World
added = made (enum_add types none (codes "Color") [] color empty)

added-ok : enum_add types none (codes "Color") [] color empty ≡ ok (added.0, added.1)
unfolding enum_add add_class_export register_values export_constant set_item get_item put_item
    incref decref alloc attach_class zeq
added-ok = refl

color_class : IsClassOf types color (added.0) (added.1)
color_class =
    enum_add-IsClassOf types none (codes "Color") [] color empty (added.0) (added.1) added-ok

color-nonzero : color ≢ 0
color-nonzero = λ e. omega arith

by_value-none : (vs : List ValueInfo) (u : ℤ) → has_value u vs ≡ false → by_value vs u ≡ none
by_value-none [] u h = refl
by_value-none (i ∷ is) u h = ground (arith, h, by_value-none is u)

enum_new-enum_add_example :
    ((has_value (pos 1) (types.class_values color) ≡ true)
      × ((a : ℕ) × (enum_new types (added.0) (pos 1) (added.1) ≡ ok (a, incref a (added.1)))
          × ((added.1).constants a ≡ some (record { ival = (pos 1); gtype = color }))))
    ⊎ ((has_value (pos 1) (types.class_values color) ≡ false)
        × (enum_new types (added.0) (pos 1) (added.1) ≡ err (invalid_value (pos 1))))
enum_new-enum_add_example =
    enum_new-enum_add types none (codes "Color") [] color empty (added.0) (added.1) (pos 1) added-ok

enum_from_gtype_lem_example :
    (a : ℕ) × (w' : World) × (enum_from_gtype types color (pos 1) (added.1)
      ≡ ok (constant_object a, w'))
    × (w'.constants a ≡ some (record { ival = (pos 1); gtype = color }))
    × (((has_value (pos 1) (types.class_values color) ≡ true)
          × (enum_new types (added.0) (pos 1) (added.1) ≡ ok (a, w')))
        ⊎ ((has_value (pos 1) (types.class_values color) ≡ false) × (w'.refs a ≡ 2)))
enum_from_gtype_lem_example =
    enum_from_gtype_lem types color (added.0) (pos 1) (added.1) color_class color-nonzero
