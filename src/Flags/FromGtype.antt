-- ===== src/Flags/FromGtype.antt =====
-- pyg_flags_from_gtype, and the operators that return through it.
use debian_pygobject.Base.{
  ℕ, [], ◌⊎◌, ◌≡◌, ◌≢◌, inl, inr, true, false, none, some, ◌==◌, ◌+◌, arith, CString,
}
use debian_pygobject.CInt.{ℤ, to_int}
use debian_pygobject.Constants.{
  Constant, Dict, dict, ConstantClass, make_class, attach_class, World, TypeSystem, flags_int,
  plain_int, int_object, constant_object, ok, alloc, incref, get_item,
}
use debian_pygobject.Constants.Registered.{has_value, register_values-total}
use debian_pygobject.Constants.ClassOf.{IsClassOf, entry_or_none}
use debian_pygobject.Enum.{add_class_export}
use debian_pygobject.Flags.{flags_add, flags_object, flags_from_gtype, flags_operator}
use debian_pygobject.Flags.Add.{flags_add-IsClassOf}

new_constant :
    (v : ℤ) (t : ℕ) (w : World)
    → (let w' = alloc v t w in
        (w'.constants w.next ≡ some (record { ival = v; gtype = t })) × (w'.refs w.next ≡ 1))
unfolding alloc
new_constant v t w = ground arith

old_constant :
    (a : ℕ) (w : World) {c : Constant}
    → w.constants a ≡ some c
    → ((incref a w).constants a ≡ some c) × ((incref a w).refs a ≡ w.refs a + 1)
unfolding incref
old_constant a w e = ground arith

object_of_entry :
    (v : ℤ) (t : ℕ) (d : Dict) (w : World) {a : ℕ}
    → get_item v d ≡ some a
    → flags_object t v (dict d) w ≡ ok (constant_object a, incref a w)
unfolding flags_object
object_of_entry v t d w e = ground arith

object_of_none :
    (v : ℤ) (t : ℕ) (d : Dict) (w : World)
    → get_item v d ≡ none
    → flags_object t v (dict d) w ≡ ok (constant_object w.next, alloc v t w)
unfolding flags_object
object_of_none v t d w e = ground arith

-- What pyg_flags_from_gtype returns for a type that has a class: an object with the value and the
-- type, be it a value of the type or a combination. It is the constant of the class, with one more
-- reference, for a value of the type, and otherwise a new object with one reference.
pub flags_from_gtype_lem :
    (ts : TypeSystem) (t : ℕ) (cls : ConstantClass) (v : ℤ) (w : World)
    → IsClassOf ts t cls w
    → t ≢ 0
    → (a : ℕ) × (w' : World) × (flags_from_gtype ts t v w ≡ ok (constant_object a, w'))
      × (w'.constants a ≡ some (record { ival = v; gtype = t }))
      × (((has_value v (ts.class_values t) ≡ true) × (w'.refs a ≡ w.refs a + 1))
          ⊎ ((has_value v (ts.class_values t) ≡ false) × (w'.refs a ≡ 1)))
unfolding flags_from_gtype
flags_from_gtype_lem ts t cls v w c ne =
    let nonzero : (t == 0) ≡ false = ground arith in
    elim (entry_or_none c v) [
      | inl (has, (a, got, is, _)) ↦ (
        a,
        incref a w,
        rw (nonzero, c.attached, c.attr) (object_of_entry v t c.entries w got),
        (old_constant a w is).0,
        inl (has, (old_constant a w is).1),
      )
      | inr (has, got) ↦ (
        w.next,
        alloc v t w,
        rw (nonzero, c.attached, c.attr) (object_of_none v t c.entries w got),
        (new_constant v t w).0,
        inr (has, (new_constant v t w).1),
      )
    ]

flags_add_total :
    (ts : TypeSystem) (name : CString) (t : ℕ) (w : World)
    → ts.is_flags t ≡ true
    → ts.can_create name ≡ true
    → (r : ConstantClass × World) × (flags_add ts none name [] t w ≡ ok r)
unfolding flags_add add_class_export
flags_add_total ts name t w is creates =
    let ((d, w'), loop) = register_values-total t [] (ts.class_values t) [] w in
    (attach_class (make_class name none t d) t w', rw (is, creates, loop))

-- The first call for a type that has no class makes one, and then does what any later call does.
pub flags_from_gtype_first :
    (ts : TypeSystem) (t : ℕ) (v : ℤ) (w : World)
    → t ≢ 0
    → ts.is_flags t ≡ true
    → ts.can_create (ts.type_name t) ≡ true
    → w.class_of t ≡ none
    → ts.import_class t ≡ none
    → (cls : ConstantClass) × (w' : World) × (flags_add ts none (ts.type_name t) [] t w
        ≡ ok (cls, w'))
      × IsClassOf ts t cls w'
      × (flags_from_gtype ts t v w ≡ flags_from_gtype ts t v w')
unfolding flags_from_gtype
flags_from_gtype_first ts t v w ne is creates fresh missing =
    let nonzero : (t == 0) ≡ false = ground arith in
    let ((cls, w'), added) = flags_add_total ts (ts.type_name t) t w is creates in
    let c = flags_add-IsClassOf ts none (ts.type_name t) [] t w cls w' added in
    (cls, w', added, c, rw (nonzero, fresh, missing, added, c.attached))

-- An operator on two flags of flags types that have classes gives an object of the left operand's
-- type with the operator's result as a `gint`; with an int whose following word is no flags type it
-- is the int operator.
pub flags_operator_lem :
    (f : ℤ → ℤ → ℤ) (ts : TypeSystem) (stray t u : ℕ) (cls : ConstantClass) (v x : ℤ) (w : World)
    → ts.is_flags t ≡ true
    → ts.is_flags u ≡ true
    → ts.is_flags stray ≡ false
    → t ≢ 0
    → IsClassOf ts t cls w
    → ((a : ℕ) × (w' : World) × (flags_operator f ts stray (flags_int t v) (flags_int u x) w
          ≡ ok (constant_object a, w'))
        × (w'.constants a ≡ some (record { ival = to_int (f v x); gtype = t })))
      × (flags_operator f ts stray (flags_int t v) (plain_int x) w ≡ ok (int_object (f v x), w))
      × (flags_operator f ts stray (plain_int v) (flags_int u x) w ≡ ok (int_object (f v x), w))
unfolding flags_operator
flags_operator_lem f ts stray t u cls v x w ft fu fs ne c =
    let (a, w', made, is, _) = flags_from_gtype_lem ts t cls (to_int (f v x)) w c ne in
    ((a, w', rw (ft, fu) made, is), rw (ft, fs), rw fs)
