-- ===== src/Enum/FromGtype.antt =====
-- pyg_enum_from_gtype: the object for a value that GLib hands over, and its attributes.
use debian_pygobject.Base.{
  ℕ, [], ◌⊎◌, ◌≡◌, ◌≢◌, inl, inr, true, false, none, some, ◌==◌, arith, CString,
}
use debian_pygobject.CInt.{ℤ}
use debian_pygobject.Constants.{
  Constant, Dict, dict, ConstantClass, make_class, attach_class, World, TypeSystem, constant_object,
  ok, err, null_dereference, alloc, incref, get_item, take_constant-some,
}
use debian_pygobject.Constants.Registered.{has_value, register_values-total}
use debian_pygobject.Constants.ClassOf.{IsClassOf, entry_or_none}
use debian_pygobject.Enum.{
  enum_add, add_class_export, enum_new, enum_object, enum_from_gtype, enum_get_value_name,
  enum_get_value_nick,
}
use debian_pygobject.Enum.Add.{enum_add-IsClassOf, read-IsClassOf}

-- A new constant, with the second reference that pygenum.c takes.
new_constant :
    (v : ℤ) (t : ℕ) (w : World)
    → (let w' = incref w.next (alloc v t w) in
        (w'.constants w.next ≡ some (record { ival = v; gtype = t })) × (w'.refs w.next ≡ 2))
unfolding incref alloc
new_constant v t w = ground arith

same_constants :
    (a : ℕ) (w : World) {c : Constant} → w.constants a ≡ some c → (incref a w).constants a ≡ some c
unfolding incref
same_constants a w e = e

object_of_entry :
    (v : ℤ) (t : ℕ) (d : Dict) (w : World) {a : ℕ}
    → get_item v d ≡ some a
    → enum_object t v (dict d) w ≡ ok (constant_object a, incref a w)
unfolding enum_object
object_of_entry v t d w e = ground arith

object_of_none :
    (v : ℤ) (t : ℕ) (d : Dict) (w : World)
    → get_item v d ≡ none
    → enum_object t v (dict d) w ≡ ok (constant_object w.next, incref w.next (alloc v t w))
unfolding enum_object
object_of_none v t d w e = ground arith

-- What pyg_enum_from_gtype returns for a type that has a class: for a value of the type the very
-- object that `EnumClass(v)` gives, for any other a new object with that value and that type, whose
-- reference count is 2 although one reference to it is handed out.
pub enum_from_gtype_lem :
    (ts : TypeSystem) (t : ℕ) (cls : ConstantClass) (v : ℤ) (w : World)
    → IsClassOf ts t cls w
    → t ≢ 0
    → (a : ℕ) × (w' : World) × (enum_from_gtype ts t v w ≡ ok (constant_object a, w'))
      × (w'.constants a ≡ some (record { ival = v; gtype = t }))
      × (((has_value v (ts.class_values t) ≡ true) × (enum_new ts cls v w ≡ ok (a, w')))
          ⊎ ((has_value v (ts.class_values t) ≡ false) × (w'.refs a ≡ 2)))
unfolding enum_from_gtype enum_new
enum_from_gtype_lem ts t cls v w c ne =
    let nonzero : (t == 0) ≡ false = ground arith in
    let (g, r) = read-IsClassOf ts t cls w c in
    elim (entry_or_none c v) [
      | inl (has, (a, got, is, _)) ↦ (
        a,
        incref a w,
        rw (nonzero, c.attached, c.attr) (object_of_entry v t c.entries w got),
        same_constants a w is,
        inl (has, rw (g, r) (take_constant-some v c.entries w got)),
      )
      | inr (has, got) ↦ (
        w.next,
        incref w.next (alloc v t w),
        rw (nonzero, c.attached, c.attr) (object_of_none v t c.entries w got),
        (new_constant v t w).0,
        inr (has, (new_constant v t w).1),
      )
    ]

enum_add_total :
    (ts : TypeSystem) (name : CString) (t : ℕ) (w : World)
    → ts.is_enum t ≡ true
    → ts.can_create name ≡ true
    → (r : ConstantClass × World) × (enum_add ts none name [] t w ≡ ok r)
unfolding enum_add add_class_export
enum_add_total ts name t w is creates =
    let ((d, w'), loop) = register_values-total t [] (ts.class_values t) [] w in
    (attach_class (make_class name none t d) t w', rw (is, creates, loop))

-- The first call for a type that has no class makes one, and then does what any later call does.
pub enum_from_gtype_first :
    (ts : TypeSystem) (t : ℕ) (v : ℤ) (w : World)
    → t ≢ 0
    → ts.is_enum t ≡ true
    → ts.can_create (ts.type_name t) ≡ true
    → w.class_of t ≡ none
    → ts.import_class t ≡ none
    → (cls : ConstantClass) × (w' : World) × (enum_add ts none (ts.type_name t) [] t w
        ≡ ok (cls, w'))
      × IsClassOf ts t cls w'
      × (enum_from_gtype ts t v w ≡ enum_from_gtype ts t v w')
unfolding enum_from_gtype
enum_from_gtype_first ts t v w ne is creates fresh missing =
    let nonzero : (t == 0) ≡ false = ground arith in
    let ((cls, w'), added) = enum_add_total ts (ts.type_name t) t w is creates in
    let c = enum_add-IsClassOf ts none (ts.type_name t) [] t w cls w' added in
    (cls, w', added, c, rw (nonzero, fresh, missing, added, c.attached))

-- For a value that the type does not have, the object that pyg_enum_from_gtype returns has no name:
-- reading its `value_name` or `value_nick` goes through the null pointer that g_enum_get_value gives
-- for such a value.
pub from_gtype_unnamed :
    (ts : TypeSystem) (t : ℕ) (cls : ConstantClass) (v : ℤ) (w : World)
    → ((u : ℤ) → has_value u (ts.class_values t) ≡ false → ts.get_value t u ≡ none)
    → IsClassOf ts t cls w
    → t ≢ 0
    → has_value v (ts.class_values t) ≡ false
    → (a : ℕ) × (w' : World) × (c : Constant) × (enum_from_gtype ts t v w
        ≡ ok (constant_object a, w'))
      × (w'.constants a ≡ some c)
      × (enum_get_value_name ts c ≡ err null_dereference)
      × (enum_get_value_nick ts c ≡ err null_dereference)
unfolding enum_get_value_name enum_get_value_nick
from_gtype_unnamed ts t cls v w documented c ne has =
    let (a, w', made, is, _) = enum_from_gtype_lem ts t cls v w c ne in
    (
      a,
      w',
      record { ival = v; gtype = t },
      made,
      is,
      rw (documented v has, enum_get_value_name),
      rw (documented v has, enum_get_value_nick),
    )
