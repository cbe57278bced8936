-- ===== src/Values/Recursion.antt =====
-- When the recursion of pyg_value_from_pyobject of gobject/pygtype.c ends.
use debian_pygobject.Base.{
  ℕ, suc, ◌≡◌, refl, Bool, true, false, Option, none, some, ◌==◌, arith, if◌then◌else◌, ◌&&◌,
}
use debian_pygobject.CInt.{to_int}
use debian_pygobject.Values.{
  Glib, Python, Marshals, Object, none_object, cobject, python_object, Fundamental, interface_type,
  char_type, uchar_type, boolean_type, int_type, uint_type, long_type, ulong_type, int64_type,
  uint64_type, enum_type, flags_type, float_type, double_type, string_type, pointer_type,
  boxed_type, param_type, object_type, none_type, other_type, Content, number, real, pointer,
  gstring, python, Answer, stored, refused, out_of_fuel,
}
use debian_pygobject.Values.TypeFrom.{type_from_object}
use debian_pygobject.Values.Lookup.{type_lookup}
use debian_pygobject.Values.Numbers.{
  as_signed, set_char, to_char, first_byte, object_str, set_int, set_long, set_int64, set_enum,
  set_flags, set_real, as_double, constant_arg, overflows,
}
use debian_pygobject.Values.FromPython.{
  set_object, set_interface, plain_item_type, value_array_from_pyobject, nested_answer, set_gvalue,
  set_custom, set_cobject, is_sequence, gstring_of, boxed_of, set_other_boxed, set_boxed_object,
  set_boxed, switch_from, value_from_pyobject,
}
use debian_pygobject.Values.Ending.{
  Ends, Ends-if, Ends-choice, set_number-Ends, set_constant-Ends, set_object-Ends, set_pointer-Ends,
  set_param-Ends, set_string-Ends, set_boolean-Ends, set_uchar-Ends, set_uint-Ends, set_ulong-Ends,
  set_uint64-Ends, text-Ends, unsigned-Ends, value_array-Ends, set_gvalue-Ends,
}

-- What the objects are converted to by their classes is neither a GValue nor an array of GValues.
abbrev IsPlain : Glib → ℕ → Type 0
IsPlain g t = (g.is_a t g.value_gtype ≡ false) × (g.is_a t g.value_array_gtype ≡ false)

abbrev pub PlainClasses : Glib → Python → Type 0
PlainClasses g py =
    (o : Object)
    → IsPlain g (type_from_object g (py.class_of o)) × IsPlain g (plain_item_type g py o)

-- The types form trees that are no deeper than the fuel of the lookup.
abbrev pub Finds : ℕ → Glib → Marshals → Type 0
Finds depth g m = (t : ℕ) → (r : Option ℕ) × (type_lookup depth g m t ≡ some r)

custom_found-Ends :
    (x : Option (Option ℕ)) (r : Option ℕ) (f : ℕ → Answer) (d : Answer)
    → x ≡ some r
    → ((tm : ℕ) → Ends (f tm))
    → Ends d
    → Ends (elim x [ none ↦ out_of_fuel | some none ↦ d | some (some tm) ↦ f tm ])
custom_found-Ends none r f d e h k = cc
custom_found-Ends (some none) r f d e h k = k
custom_found-Ends (some (some tm)) r f d e h k = h tm

set_cobject-Ends : (o : Object) (c : Content) → Ends (set_cobject o c)
unfolding set_cobject
set_cobject-Ends (cobject a) c = tt
set_cobject-Ends o c = tt

conflict : {A : Type 0} (b : Bool) → b ≡ false → b ≡ true → A
conflict b e f = cc

second_true : (a b : Bool) → (a && b) ≡ true → b ≡ true
second_true a b h = ground arith

module _ (depth : ℕ) (g : Glib) (py : Python) (m : Marshals) (finds : Finds depth g m)
    (custom : (tm : ℕ) (c : Content) (o : Object) → Ends (m.tovalue tm c o)) where
  set_custom-Ends :
      (t : ℕ) (o : Object) (c : Content) (d : Answer) → Ends d → Ends (set_custom depth g m t o c d)
  unfolding set_custom
  set_custom-Ends t o c d h =
      custom_found-Ends (type_lookup depth g m t) (finds t).0 (λ tm. m.tovalue tm c o) d (finds t).1
        (λ tm. custom tm c o) h

  set_other_boxed-Ends : (t : ℕ) (o : Object) (c : Content) → Ends (set_other_boxed depth g m t o c)
  unfolding set_other_boxed
  set_other_boxed-Ends t o c =
      Ends-choice (if g.is_a t g.gstring_gtype then gstring_of o else none)
        (λ s. stored (gstring s)) (set_custom depth g m t o c (set_cobject o c)) (λ s. tt)
        (set_custom-Ends t o c (set_cobject o c) (set_cobject-Ends o c))

  module _ (from : ℕ → Content → Object → Answer) (t : ℕ)
      (nested : g.is_a t g.value_gtype ≡ true
        → (o : Object)
        → (let u = type_from_object g (py.class_of o) in Ends (from u (g.initial u) o)))
      (listed : g.is_a t g.value_array_gtype ≡ true
        → (o : Object)
        → Ends (from (plain_item_type g py o) (g.initial (plain_item_type g py o)) o)) where
    set_boxed_object-Ends :
        (o : Object) (c : Content) → Ends (set_boxed_object from depth g py m t o c)
    unfolding set_boxed_object
    set_boxed_object-Ends o c =
        let others = set_other_boxed depth g m t o c in
        let sequence = is_sequence (py.sequence o) && g.is_a t g.value_array_gtype in
        let listing = value_array_from_pyobject from g py none o c in
        let by_kind =
          if g.is_a t g.value_gtype
          then set_gvalue from g py o c
          else if sequence
          then listing
          else others in
        Ends-if (g.is_a t g.py_object_gtype) (stored (python o)) _ (λ e. tt)
          (Ends-choice (boxed_of g t o) (λ a. stored (pointer a)) by_kind (λ a. tt)
            (Ends-if (g.is_a t g.value_gtype) (set_gvalue from g py o c)
              (if sequence then listing else others)
              (λ e. set_gvalue-Ends g py from o c (nested e o))
              (Ends-if sequence listing others
                (λ e.
                  value_array-Ends g py from
                    (listed (second_true (is_sequence (py.sequence o)) _ e)) o c)
                (set_other_boxed-Ends t o c))))

    set_boxed-Ends : (o : Object) (c : Content) → Ends (set_boxed from depth g py m t o c)
    unfolding set_boxed
    set_boxed-Ends none_object c = tt
    set_boxed-Ends o c = set_boxed_object-Ends o c

    switch_from-Ends :
        (f : Fundamental) (o : Object) (c : Content) → Ends (switch_from from depth g py m f t c o)
    unfolding switch_from set_interface set_enum set_flags set_char set_int set_long set_int64
        set_real
    switch_from-Ends interface_type o c =
        Ends-if (g.is_a t g.gobject_gtype) (set_object g t o c) (refused c)
          (λ e. set_object-Ends g t o c) tt
    switch_from-Ends char_type o c =
        text-Ends (object_str py o) c (λ s. number (to_char (first_byte s)))
    switch_from-Ends uchar_type o c = set_uchar-Ends py o c
    switch_from-Ends boolean_type o c = set_boolean-Ends py o
    switch_from-Ends int_type o c = set_number-Ends to_int (as_signed py.as_long o)
    switch_from-Ends uint_type o c = set_uint-Ends o c
    switch_from-Ends long_type o c = set_number-Ends (λ v. v) (as_signed py.as_long o)
    switch_from-Ends ulong_type o c = set_ulong-Ends o c
    switch_from-Ends int64_type o c = set_number-Ends (λ v. v) (as_signed py.as_long_long o)
    switch_from-Ends uint64_type o c = set_uint64-Ends o c
    switch_from-Ends enum_type o c = set_constant-Ends _ (overflows (constant_arg py o)) c
    switch_from-Ends flags_type o c = set_constant-Ends _ (overflows (constant_arg py o)) c
    switch_from-Ends float_type o c = unsigned-Ends (as_double py o) (λ b. real (g.to_float b))
    switch_from-Ends double_type o c = unsigned-Ends (as_double py o) real
    switch_from-Ends string_type o c = set_string-Ends py o c
    switch_from-Ends pointer_type o c = set_pointer-Ends g t o c
    switch_from-Ends boxed_type o c = set_boxed-Ends o c
    switch_from-Ends param_type o c = set_param-Ends o c
    switch_from-Ends object_type o c = set_object-Ends g t o c
    switch_from-Ends none_type o c = set_custom-Ends t o c (stored c) tt
    switch_from-Ends other_type o c = set_custom-Ends t o c (stored c) tt

  plain-Ends :
      (fuel t : ℕ) (c : Content) (o : Object)
      → IsPlain g t
      → Ends (value_from_pyobject (suc fuel) depth g py m t c o)
  unfolding value_from_pyobject
  plain-Ends fuel t c o (no_value, no_array) =
      switch_from-Ends (value_from_pyobject fuel depth g py m) t
        (λ e. conflict (g.is_a t g.value_gtype) no_value e)
        (λ e. conflict (g.is_a t g.value_array_gtype) no_array e) (g.fundamental t) o c

  -- A conversion ends within two calls inside each other, if no class of an object stands for a GValue
  -- or an array of GValues, the registered conversions end, and no type is deeper than the fuel of
  -- the lookup.
  pub value_from_pyobject-Ends :
      (fuel t : ℕ) (c : Content) (o : Object)
      → PlainClasses g py
      → Ends (value_from_pyobject (suc (suc fuel)) depth g py m t c o)
  unfolding value_from_pyobject
  value_from_pyobject-Ends fuel t c o plain =
      switch_from-Ends (value_from_pyobject (suc fuel) depth g py m) t
        (λ e p.
          let u = type_from_object g (py.class_of p) in
          plain-Ends fuel u (g.initial u) p (plain p).0)
        (λ e p. let u = plain_item_type g py p in plain-Ends fuel u (g.initial u) p (plain p).1)
        (g.fundamental t) o c

-- An object whose class gives G_TYPE_VALUE as its type, or a type derived from it, and that is no
-- boxed wrapper itself, is put into a GValue inside a GValue inside a GValue: there is no amount of
-- fuel with which its conversion to that type ends.
pub value_from_pyobject-endless :
    (fuel depth : ℕ) (g : Glib) (py : Python) (m : Marshals) (t k : ℕ) (c : Content)
    → type_from_object g (py.class_of (python_object k)) ≡ t
    → (t == 0) ≡ false
    → g.fundamental t ≡ boxed_type
    → g.is_a t g.py_object_gtype ≡ false
    → g.is_a t g.value_gtype ≡ true
    → value_from_pyobject fuel depth g py m t c (python_object k) ≡ out_of_fuel
unfolding value_from_pyobject
value_from_pyobject-endless Prim.Native.Nat.zero depth g py m t k c own some_type boxed plain
      value =
    refl
value_from_pyobject-endless (suc fuel) depth g py m t k c own some_type boxed plain value =
    let rest =
      value_from_pyobject-endless fuel depth g py m t k (g.initial t) own some_type boxed plain
        value in
    rw (
      boxed, switch_from, set_boxed, set_boxed_object, plain, boxed_of, value, set_gvalue, own,
      some_type, rest, nested_answer,
    )
