-- ===== src/Enum/Add.antt =====
-- The classes that pyg_enum_add makes, and the constants that pyg_enum_new gives from them.
use debian_pygobject.Base.{
  ℕ, [], ◌⊎◌, inl, inr, ◌≡◌, refl, true, false, Option, some, arith, CString,
}
use debian_pygobject.CInt.{ℤ}
use debian_pygobject.Constants.{
  ConstantClass, World, TypeSystem, ok, err, guard, not_this_kind, cannot_create, invalid_value,
  incref, take_constant-some, take_constant-none, >>=-eq-ok,
}
use debian_pygobject.Constants.Register.{register_values}
use debian_pygobject.Constants.Registered.{has_value}
use debian_pygobject.Constants.ClassOf.{IsClassOf, attach-IsClassOf, entry_or_none}
use debian_pygobject.Enum.{enum_add, enum_new, add_class_export, read_gtype, read_enum_values}

pub enum_add-IsClassOf :
    (ts : TypeSystem) (m : Option CString) (name prefix : CString) (t : ℕ) (w : World)
    (cls : ConstantClass) (w' : World)
    → enum_add ts m name prefix t w ≡ ok (cls, w')
    → IsClassOf ts t cls w'
unfolding enum_add
enum_add-IsClassOf ts m name prefix t w cls w' e =
    let (_, _, e₁) = >>=-eq-ok (guard (ts.is_enum t) not_this_kind) _ e in
    let (_, _, e₂) = >>=-eq-ok (guard (ts.can_create name) cannot_create) _ e₁ in
    let ((d, w₁), loop, e₃) =
      >>=-eq-ok (register_values t m prefix (ts.class_values t) [] (add_class_export m name t w)) _
        e₂ in
    attach-IsClassOf ts m name prefix t d (add_class_export m name t w) w₁ cls w' loop (cc)

-- The checks of pyg_enum_new pass on such a class.
pub read-IsClassOf :
    (ts : TypeSystem) (t : ℕ) (cls : ConstantClass) (w : World) (c : IsClassOf ts t cls w)
    → (read_gtype cls.gtype_attr ≡ ok t) × (read_enum_values ts t cls.values_attr ≡ ok c.entries)
unfolding read_gtype read_enum_values
read-IsClassOf ts t cls w c = (rw c.gtype refl, rw c.attr (ground (arith, c.registered.size)))

-- From a class that pyg_enum_add made, `EnumClass(v)` gives a constant with that value and that type
-- and one more reference to it, if the type has the value, and fails with ValueError otherwise.
pub enum_new-enum_add :
    (ts : TypeSystem) (m : Option CString) (name prefix : CString) (t : ℕ) (w : World)
    (cls : ConstantClass) (w' : World) (v : ℤ)
    → enum_add ts m name prefix t w ≡ ok (cls, w')
    → ((has_value v (ts.class_values t) ≡ true)
        × ((a : ℕ) × (enum_new ts cls v w' ≡ ok (a, incref a w'))
            × (w'.constants a ≡ some (record { ival = v; gtype = t }))))
      ⊎ ((has_value v (ts.class_values t) ≡ false) × (enum_new ts cls v w' ≡ err (invalid_value v)))
unfolding enum_new
enum_new-enum_add ts m name prefix t w cls w' v e =
    let c = enum_add-IsClassOf ts m name prefix t w cls w' e in
    let (g, r) = read-IsClassOf ts t cls w' c in
    elim (entry_or_none c v) [
      | inl (has, (a, got, is, _)) ↦
          inl (has, (a, rw (g, r) (take_constant-some v c.entries w' got), is))
      | inr (has, got) ↦ inr (has, rw (g, r) (take_constant-none v c.entries w' got))
    ]
