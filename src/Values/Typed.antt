-- ===== src/Values/Typed.antt =====
-- That pyg_value_from_pyobject of gobject/pygtype.c stores what the type of the GValue allows.
use debian_pygobject.Base.{
  ℕ, suc, ◌≡◌, refl, Bool, true, false, Option, none, some, List, arith, if◌then◌else◌, ◌&&◌,
}
use mathlib.Core.Path.{subst}
use debian_pygobject.Values.{
  Glib, Python, Marshals, Object, none_object, cobject, Fundamental, interface_type, char_type,
  uchar_type, boolean_type, int_type, uint_type, long_type, ulong_type, int64_type, uint64_type,
  enum_type, flags_type, float_type, double_type, string_type, pointer_type, boxed_type, param_type,
  object_type, none_type, other_type, Content, pointer, python, gstring, Answer, stored, refused,
  out_of_fuel,
}
use debian_pygobject.Values.Lookup.{type_lookup}
use debian_pygobject.Values.Numbers.{set_enum, set_flags, constant_arg, overflows}
use debian_pygobject.Values.Simple.{
  GintValues, enum_get_value-InInt, flags_get_value-InInt, set_constant-Stored, set_object-Fits,
  instance-Fits, implementation-Fits, set_pointer-Fits, set_param-Fits, set_real-Fits,
  set_string-Fits,
}
use debian_pygobject.Values.Fitting.{FitsAs, Stored}
use debian_pygobject.Values.Sized.{
  choice-Stored, if-Stored, set_char-Fits, set_uchar-Fits, set_boolean-Fits, set_int-Fits,
  set_uint-Fits, set_long-Fits, set_ulong-Fits, set_int64-Fits, set_uint64-Fits,
}
use debian_pygobject.Values.FromPython.{
  set_interface, set_custom, set_cobject, is_sequence, gstring_of, boxed_of, set_other_boxed,
  set_boxed_object, set_boxed, switch_from, value_from_pyobject,
}
use debian_pygobject.Values.Checked.{NotPointer, WrongWrapper, WrongWrapper-NotPointer}
use debian_pygobject.Values.Nested.{value_array-Fits, set_gvalue-Fits}

-- What the registered conversions have to keep to.
abbrev pub MarshalsFit : ℕ → Glib → Marshals → Type 0
MarshalsFit depth g m =
    (t tm : ℕ) (c : Content) (o : Object)
    → type_lookup depth g m t ≡ some (some tm)
    → FitsAs g (g.fundamental t) t c
    → Stored (FitsAs g (g.fundamental t) t) (m.tovalue tm c o)

custom-Stored :
    (P : Content → Type 0) (tovalue : ℕ → Answer) (otherwise : Answer) (x : Option (Option ℕ))
    → ((tm : ℕ) → x ≡ some (some tm) → Stored P (tovalue tm))
    → Stored P otherwise
    → Stored P (elim x [ none ↦ out_of_fuel | some none ↦ otherwise | some (some tm) ↦ tovalue tm ])
custom-Stored P tovalue otherwise none h e = tt
custom-Stored P tovalue otherwise (some none) h e = e
custom-Stored P tovalue otherwise (some (some tm)) h e = h tm refl

if_known-Stored :
    (P : Content → Type 0) (b : Bool) (x y : Answer)
    → (b ≡ true → Stored P x)
    → Stored P y
    → Stored P (if b then x else y)
if_known-Stored P true x y p q = p refl
if_known-Stored P false x y p q = q

both-second : (a b : Bool) → (a && b) ≡ true → b ≡ true
both-second a b h = ground arith

module _ (depth : ℕ) (g : Glib) (py : Python) (m : Marshals) (custom : MarshalsFit depth g m) where
  set_custom-Fits :
      (f : Fundamental) (t : ℕ) (o : Object) (c : Content) (otherwise : Answer)
      → g.fundamental t ≡ f
      → FitsAs g f t c
      → Stored (FitsAs g f t) otherwise
      → Stored (FitsAs g f t) (set_custom depth g m t o c otherwise)
  unfolding set_custom
  set_custom-Fits f t o c otherwise e h d =
      custom-Stored (FitsAs g f t) (λ tm. m.tovalue tm c o) otherwise (type_lookup depth g m t)
        (λ tm found.
          subst (λ k. FitsAs g k t c → Stored (FitsAs g k t) (m.tovalue tm c o)) e
            (custom t tm c o found) h)
        d

  set_cobject-Fits :
      (t : ℕ) (o : Object) (c : Content) → Stored (FitsAs g boxed_type t) (set_cobject o c)
  unfolding set_cobject FitsAs
  set_cobject-Fits t (cobject a) c = tt
  set_cobject-Fits t o c = tt

  gstring-Stored :
      (t : ℕ) (b : Bool) (x : Option (List ℕ)) (d : Answer)
      → (b ≡ true → g.is_a t g.gstring_gtype ≡ true)
      → Stored (FitsAs g boxed_type t) d
      → Stored
          (FitsAs g boxed_type t)
          (elim (if b then x else none) [ some s ↦ stored (gstring s) | none ↦ d ])
  unfolding FitsAs
  gstring-Stored t true (some s) d h e = (refl, h refl)
  gstring-Stored t true none d h e = e
  gstring-Stored t false x d h e = e

  set_other_boxed-Fits :
      (t : ℕ) (o : Object) (c : Content)
      → g.fundamental t ≡ boxed_type
      → FitsAs g boxed_type t c
      → Stored (FitsAs g boxed_type t) (set_other_boxed depth g m t o c)
  unfolding set_other_boxed
  set_other_boxed-Fits t o c e h =
      gstring-Stored t (g.is_a t g.gstring_gtype) (gstring_of o) _ (λ x. x)
        (set_custom-Fits boxed_type t o c (set_cobject o c) e h (set_cobject-Fits t o c))

  python-Fits :
      (t : ℕ) (o : Object) → g.is_a t g.py_object_gtype ≡ true → FitsAs g boxed_type t (python o)
  unfolding FitsAs
  python-Fits t o h = (refl, h)

  pointer-Fits : (t : ℕ) (a : Option ℕ) → FitsAs g boxed_type t (pointer a)
  unfolding FitsAs
  pointer-Fits t a = tt

  module _ (from : ℕ → Content → Object → Answer)
      (inner : (u : ℕ) (o : Object)
        → Stored (FitsAs g (g.fundamental u) u) (from u (g.initial u) o)) where
    set_boxed_object-Fits :
        (t : ℕ) (o : Object) (c : Content)
        → g.fundamental t ≡ boxed_type
        → FitsAs g boxed_type t c
        → Stored (FitsAs g boxed_type t) (set_boxed_object from depth g py m t o c)
    unfolding set_boxed_object
    set_boxed_object-Fits t o c e h =
        let P = FitsAs g boxed_type t in
        if_known-Stored P (g.is_a t g.py_object_gtype) _ _ (python-Fits t o) (
          choice-Stored P (boxed_of g t o) (λ a. stored (pointer a)) _ (pointer-Fits t)
            (if_known-Stored P (g.is_a t g.value_gtype) _ _ (set_gvalue-Fits g py from inner t o c)
              (if_known-Stored P (is_sequence (py.sequence o) && g.is_a t g.value_array_gtype) _ _
                (λ both.
                  value_array-Fits g py from inner t o c
                    (both-second (is_sequence (py.sequence o)) _ both))
                (set_other_boxed-Fits t o c e h))))

    set_boxed-Fits :
        (t : ℕ) (o : Object) (c : Content)
        → g.fundamental t ≡ boxed_type
        → FitsAs g boxed_type t c
        → Stored (FitsAs g boxed_type t) (set_boxed from depth g py m t o c)
    unfolding set_boxed
    set_boxed-Fits t none_object c e h = pointer-Fits t none
    set_boxed-Fits t o c e h = set_boxed_object-Fits t o c e h

    switch_from-Fits :
        GintValues g.types
        → (f : Fundamental) (t : ℕ) (o : Object) (c : Content) → g.fundamental t ≡ f
        → FitsAs g f t c
        → Stored (FitsAs g f t) (switch_from from depth g py m f t c o)
    unfolding switch_from set_interface set_enum set_flags FitsAs
    switch_from-Fits v interface_type t o c e h =
        if-Stored (FitsAs g interface_type t) (g.is_a t g.gobject_gtype) _ (refused c)
          (set_object-Fits g t interface_type o c (implementation-Fits g t) tt) tt
    switch_from-Fits v char_type t o c e h = set_char-Fits g t py o c
    switch_from-Fits v uchar_type t o c e h = set_uchar-Fits g t py o c
    switch_from-Fits v boolean_type t o c e h = set_boolean-Fits g t py o
    switch_from-Fits v int_type t o c e h = set_int-Fits g t py o
    switch_from-Fits v uint_type t o c e h = set_uint-Fits g t o c
    switch_from-Fits v long_type t o c e h = set_long-Fits g t py o
    switch_from-Fits v ulong_type t o c e h = set_ulong-Fits g t o c
    switch_from-Fits v int64_type t o c e h = set_int64-Fits g t py o
    switch_from-Fits v uint64_type t o c e h = set_uint64-Fits g t o c
    switch_from-Fits v enum_type t o c e h =
        set_constant-Stored (FitsAs g enum_type t) _ (overflows (constant_arg py o)) c
          (enum_get_value-InInt g.types v t (constant_arg py o))
    switch_from-Fits v flags_type t o c e h =
        set_constant-Stored (FitsAs g flags_type t) _ (overflows (constant_arg py o)) c
          (flags_get_value-InInt g.types t (constant_arg py o))
    switch_from-Fits v float_type t o c e h = set_real-Fits g t float_type g.to_float py o tt
    switch_from-Fits v double_type t o c e h = set_real-Fits g t double_type (λ b. b) py o tt
    switch_from-Fits v string_type t o c e h = set_string-Fits g t py o c
    switch_from-Fits v pointer_type t o c e h = set_pointer-Fits g t o c
    switch_from-Fits v boxed_type t o c e h = set_boxed-Fits t o c e h
    switch_from-Fits v param_type t o c e h = set_param-Fits g t o c
    switch_from-Fits v object_type t o c e h =
        set_object-Fits g t object_type o c (instance-Fits g t) tt
    switch_from-Fits v none_type t o c e h = set_custom-Fits none_type t o c (stored c) e h h
    switch_from-Fits v other_type t o c e h = set_custom-Fits other_type t o c (stored c) e h h

-- What is stored fits, with any fuel.
Stored-Fits :
    (fuel depth : ℕ) (g : Glib) (py : Python) (m : Marshals)
    → GintValues g.types
    → MarshalsFit depth g m
    → ((u : ℕ) → FitsAs g (g.fundamental u) u (g.initial u))
    → (t : ℕ) (c : Content) (o : Object) → FitsAs g (g.fundamental t) t c
    → Stored (FitsAs g (g.fundamental t) t) (value_from_pyobject fuel depth g py m t c o)
unfolding value_from_pyobject
Stored-Fits Prim.Native.Nat.zero depth g py m v custom start t c o h = tt
Stored-Fits (suc fuel) depth g py m v custom start t c o h =
    switch_from-Fits depth g py m custom (value_from_pyobject fuel depth g py m)
      (λ u p. Stored-Fits fuel depth g py m v custom start u (g.initial u) p (start u)) v
      (g.fundamental t) t o c refl h

-- Whatever object is converted, and however deep the conversion goes, what is stored in a GValue is
-- allowed by its type: a number is in the range of the type, an object of it or of a type derived
-- from it, and so on inside GValues and arrays. It is assumed that g_value_init does so, that the
-- registered conversions do so, and that the values of enum and flags classes are `gint`s.
-- Nor is the pointer of a boxed or pointer wrapper taken whose type the type of the GValue is not, if no
-- conversion is registered.
pub value_from_pyobject-Fits :
    (fuel depth : ℕ) (g : Glib) (py : Python) (m : Marshals)
    → GintValues g.types
    → MarshalsFit depth g m
    → ((u : ℕ) → FitsAs g (g.fundamental u) u (g.initial u))
    → (t : ℕ) (c : Content) (o : Object) → FitsAs g (g.fundamental t) t c
    → Stored (FitsAs g (g.fundamental t) t) (value_from_pyobject fuel depth g py m t c o)
      × (WrongWrapper depth g m t o
          → Stored NotPointer (value_from_pyobject fuel depth g py m t c o))
value_from_pyobject-Fits fuel depth g py m v custom start t c o h = (
  Stored-Fits fuel depth g py m v custom start t c o h,
  WrongWrapper-NotPointer fuel depth g py m t c o,
)
