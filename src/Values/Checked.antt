-- ===== src/Values/Checked.antt =====
-- That pyg_value_from_pyobject of gobject/pygtype.c does not take the pointer of a boxed or pointer wrapper
-- of the wrong type.
use debian_pygobject.Base.{
  ℕ, List, suc, ◌≡◌, Bool, true, false, Option, none, some, ◌&&◌, ◌==◌, if◌then◌else◌,
}
use debian_pygobject.Values.{
  Glib, Python, Marshals, Object, boxed_object, pointer_object, boxed_type, pointer_type, Content,
  none_object, bool_object, int_object, long_object, float_object, text_object, gobject_object,
  param_object, cobject, list_object, python_object, pointer, gstring, not_sequence, no_length,
  items, Answer, stored, refused, unset, out_of_fuel,
}
use debian_pygobject.Values.TypeFrom.{type_from_object}
use debian_pygobject.Values.Lookup.{type_lookup}
use debian_pygobject.Values.Fitting.{Stored}
use debian_pygobject.Values.Sized.{if-Stored}
use debian_pygobject.Values.FromPython.{
  Built, built, failed, built_out_of_fuel, array_loop, take_array, wrong_length,
  value_array_from_pyobject, nested_answer, set_gvalue, set_custom, set_cobject, is_sequence,
  boxed_of, set_other_boxed, set_boxed_object, set_boxed, set_pointer, switch_from,
  value_from_pyobject,
}

abbrev pub NotPointer : Content → Type 0
NotPointer (pointer p) = ⊥
NotPointer _ = Unit {0}

-- A wrapper whose type fails the test of the conversion, G_VALUE_HOLDS; of a boxed type that holds no
-- Python objects and for which no conversion is registered, or of a pointer type.
abbrev pub WrongWrapper : ℕ → Glib → Marshals → ℕ → Object → Type 0
WrongWrapper depth g m t (boxed_object u a) =
    (g.fundamental t ≡ boxed_type)
    × (g.is_a t g.py_object_gtype ≡ false)
    × (g.is_a t u ≡ false)
    × (type_lookup depth g m t ≡ some none)
WrongWrapper depth g m t (pointer_object u a) =
    (g.fundamental t ≡ pointer_type) × (g.is_a t u ≡ false)
WrongWrapper depth g m t _ = ⊥

take_array-NotPointer : (b : Built) (c : Content) → Stored NotPointer (take_array b c)
unfolding take_array
take_array-NotPointer (built cs) c = tt
take_array-NotPointer failed c = tt
take_array-NotPointer built_out_of_fuel c = tt

nested_answer-NotPointer : (t : ℕ) (a : Answer) → Stored NotPointer (nested_answer t a)
unfolding nested_answer
nested_answer-NotPointer t (stored c) = tt
nested_answer-NotPointer t (refused c) = tt
nested_answer-NotPointer t unset = tt
nested_answer-NotPointer t out_of_fuel = tt

no_text :
    (b : Bool) (d : Answer)
    → Stored NotPointer d
    → Stored NotPointer (elim (if◌then◌else◌ {A = Option (List ℕ)} b none none) [
      | some s ↦ stored (gstring s)
      | none ↦ d
    ])
no_text true d h = h
no_text false d h = h

module _ (depth : ℕ) (g : Glib) (py : Python) (m : Marshals)
    (from : ℕ → Content → Object → Answer) where
  value_array-NotPointer :
      (o : Object) (c : Content) → Stored NotPointer (value_array_from_pyobject from g py none o c)
  unfolding value_array_from_pyobject wrong_length
  value_array-NotPointer o c =
      elim (py.sequence o)
        as (λ x. Stored NotPointer (elim x [
          | not_sequence ↦ refused c
          | no_length ↦ refused c
          | items xs ↦ take_array (array_loop from g py none xs) c
        ])) [
          | not_sequence ↦ tt
          | no_length ↦ tt
          | items xs ↦ take_array-NotPointer (array_loop from g py none xs) c
        ]

  set_gvalue-NotPointer : (o : Object) (c : Content) → Stored NotPointer (set_gvalue from g py o c)
  unfolding set_gvalue
  set_gvalue-NotPointer o c =
      let u = type_from_object g (py.class_of o) in
      if-Stored NotPointer (u == 0) (refused c) _ tt
        (nested_answer-NotPointer u (from u (g.initial u) o))

  boxed-NotPointer :
      (t u : ℕ) (a : Option ℕ) (c : Content)
      → g.is_a t g.py_object_gtype ≡ false
      → g.is_a t u ≡ false
      → type_lookup depth g m t ≡ some none
      → Stored NotPointer (set_boxed_object from depth g py m t (boxed_object u a) c)
  unfolding set_boxed_object boxed_of set_other_boxed set_custom set_cobject
  boxed-NotPointer t u a c plain wrong unregistered =
      let o = boxed_object u a in
      rw (plain, set_boxed_object, wrong, boxed_of)
        (if-Stored NotPointer (g.is_a t g.value_gtype) _ _ (set_gvalue-NotPointer o c) (
          if-Stored NotPointer (is_sequence (py.sequence o) && g.is_a t g.value_array_gtype) _ _
            (value_array-NotPointer o c)
            (no_text (g.is_a t g.gstring_gtype) _ (rw (unregistered, set_custom) tt))))

  pointer-NotPointer :
      (t u : ℕ) (a : Option ℕ) (c : Content)
      → g.is_a t u ≡ false
      → Stored NotPointer (set_pointer g t (pointer_object u a) c)
  unfolding set_pointer
  pointer-NotPointer t u a c wrong = rw (wrong, set_pointer) tt

pub WrongWrapper-NotPointer :
    (fuel depth : ℕ) (g : Glib) (py : Python) (m : Marshals) (t : ℕ) (c : Content) (o : Object)
    → WrongWrapper depth g m t o
    → Stored NotPointer (value_from_pyobject fuel depth g py m t c o)
unfolding value_from_pyobject switch_from set_boxed
WrongWrapper-NotPointer Prim.Native.Nat.zero depth g py m t c o h = tt
WrongWrapper-NotPointer (suc fuel) depth g py m t c (boxed_object u a) (f, plain, wrong, none_) =
    rw (f, value_from_pyobject)
      (boxed-NotPointer depth g py m (value_from_pyobject fuel depth g py m) t u a c plain wrong
        none_)
WrongWrapper-NotPointer (suc fuel) depth g py m t c (pointer_object u a) (f, wrong) =
    rw (f, value_from_pyobject)
      (pointer-NotPointer depth g py m (value_from_pyobject fuel depth g py m) t u a c wrong)
WrongWrapper-NotPointer (suc fuel) depth g py m t c none_object h = elim h [ ]
WrongWrapper-NotPointer (suc fuel) depth g py m t c (bool_object x) h = elim h [ ]
WrongWrapper-NotPointer (suc fuel) depth g py m t c (int_object x) h = elim h [ ]
WrongWrapper-NotPointer (suc fuel) depth g py m t c (long_object x) h = elim h [ ]
WrongWrapper-NotPointer (suc fuel) depth g py m t c (float_object x) h = elim h [ ]
WrongWrapper-NotPointer (suc fuel) depth g py m t c (text_object x) h = elim h [ ]
WrongWrapper-NotPointer (suc fuel) depth g py m t c (gobject_object x) h = elim h [ ]
WrongWrapper-NotPointer (suc fuel) depth g py m t c (param_object x) h = elim h [ ]
WrongWrapper-NotPointer (suc fuel) depth g py m t c (cobject x) h = elim h [ ]
WrongWrapper-NotPointer (suc fuel) depth g py m t c (list_object x) h = elim h [ ]
WrongWrapper-NotPointer (suc fuel) depth g py m t c (python_object x) h = elim h [ ]
