-- ===== src/Values/Simple.antt =====
-- That the cases of pyg_value_from_pyobject of gobject/pygtype.c for constants, floats, texts and
-- pointers store what the type of the GValue allows.
use debian_pygobject.Base.{
  ℕ, ◌≡◌, refl, Bool, true, false, Option, none, some, List, [], ◌∷◌, arith, CString,
}
use debian_pygobject.CInt.{ℤ, pos, InInt, to_int, or_long}
use debian_pygobject.Constants.{TypeSystem, ValueInfo, Result, ok, err, unknown_name}
use debian_pygobject.Constants.Convert.{
  Arg, null, int_arg, long_arg, text_arg, tuple_arg, other_arg, as_long, look_up, text_value,
  tuple_value, enum_get_value, flags_get_value,
}
use debian_pygobject.Values.{
  Glib, Python, Object, none_object, gobject_object, pointer_object, param_object, cobject,
  Fundamental, interface_type, string_type, pointer_type, param_type, object_type, Content, number,
  real, text, pointer, stored, refused, unset, c_string,
}
use debian_pygobject.Values.Numbers.{set_constant, set_real, as_double, set_string, object_str}
use debian_pygobject.Values.Fitting.{FitsAs, Stored, Every, IsReal}
use debian_pygobject.Values.Sized.{choice-Stored, Stored-if, to_int-InInt_all}
use debian_pygobject.Values.FromPython.{
  instance_of, set_object, set_pointer, as_void_ptr, set_param,
}

-- What a conversion of constants gives, if it succeeds.
abbrev pub Given : (ℤ → Type 0) → Result ℤ → Type 0
Given P (ok v) = P v
Given P (err e) = Unit {0}

-- GEnumValue.value is a `gint`, and so is what is kept of GFlagsValue.value.
abbrev pub GintValues : TypeSystem → Type 0
GintValues ts = (t : ℕ) (s : CString) → Every (λ i. InInt i.value) (look_up ts t s)

pub found-InInt :
    (x : Option ValueInfo)
    → Every (λ i. InInt i.value) x
    → Given InInt (elim x [ none ↦ err unknown_name | some i ↦ ok i.value ])
found-InInt none h = tt
found-InInt (some i) h = h

pub enum_get_value-InInt :
    (ts : TypeSystem)
    → GintValues ts
    → (t : ℕ) (a : Arg) → Given InInt (enum_get_value ts (some t) a)
unfolding enum_get_value text_value
enum_get_value-InInt ts h t null = omega arith
enum_get_value-InInt ts h t (int_arg v) = to_int-InInt_all v
enum_get_value-InInt ts h t (long_arg v) = to_int-InInt_all (as_long v)
enum_get_value-InInt ts h t (text_arg s) = found-InInt (look_up ts t s) (h t s)
enum_get_value-InInt ts h t (tuple_arg xs) = tt
enum_get_value-InInt ts h t other_arg = tt

pub tuple_value-InInt :
    (ts : TypeSystem) (t : ℕ) (xs : List (Option CString)) (v : ℤ)
    → InInt v
    → Given InInt (tuple_value ts t xs v)
unfolding tuple_value
tuple_value-InInt ts t [] v h = h
tuple_value-InInt ts t (none ∷ xs) v h = tt
tuple_value-InInt ts t (some s ∷ xs) v h =
    elim (look_up ts t s)
      as (λ x. Given InInt (elim x [
        | none ↦ err unknown_name
        | some i ↦ tuple_value ts t xs (to_int (or_long v i.value))
      ])) [
        | none ↦ tt
        | some i ↦
            tuple_value-InInt ts t xs (to_int (or_long v i.value))
              (to_int-InInt_all (or_long v i.value))
      ]

pub narrowed-InInt : (x : Result ℤ) → Given InInt (elim x [ ok v ↦ ok (to_int v) | err e ↦ err e ])
narrowed-InInt (ok v) = to_int-InInt_all v
narrowed-InInt (err e) = tt

pub flags_get_value-InInt :
    (ts : TypeSystem) (t : ℕ) (a : Arg) → Given InInt (flags_get_value ts (some t) a)
unfolding flags_get_value
flags_get_value-InInt ts t null = omega arith
flags_get_value-InInt ts t (int_arg v) = to_int-InInt_all v
flags_get_value-InInt ts t (long_arg v) = to_int-InInt_all (as_long v)
flags_get_value-InInt ts t (text_arg s) = narrowed-InInt (text_value ts (some t) s)
flags_get_value-InInt ts t (tuple_arg xs) = tuple_value-InInt ts t xs (pos 0) (omega arith)
flags_get_value-InInt ts t other_arg = tt

pub set_constant-Stored :
    (P : Content → Type 0) (r : Result ℤ) (pending : Bool) (c : Content)
    → Given (λ v. P (number v)) r
    → Stored P (set_constant r pending c)
unfolding set_constant
set_constant-Stored P (ok v) true c h = tt
set_constant-Stored P (ok v) false c h = h
set_constant-Stored P (err e) pending c h = tt

module _ (g : Glib) (t : ℕ) where
  pub set_object-Fits :
      (f : Fundamental) (o : Object) (c : Content)
      → ((p : Option ℕ) → instance_of g t p ≡ true → FitsAs g f t (pointer p))
      → FitsAs g f t (pointer none)
      → Stored (FitsAs g f t) (set_object g t o c)
  unfolding set_object
  set_object-Fits f none_object c h n = n
  set_object-Fits f (gobject_object a) c h n =
      Stored-if (FitsAs g f t) (instance_of g t a) (pointer a) c (h a)
  set_object-Fits f o c h n = tt

  pub instance-Fits : (p : Option ℕ) → instance_of g t p ≡ true → FitsAs g object_type t (pointer p)
  unfolding FitsAs instance_of
  instance-Fits none h = tt
  instance-Fits (some a) h = h

  pub implementation-Fits :
      (p : Option ℕ) → instance_of g t p ≡ true → FitsAs g interface_type t (pointer p)
  unfolding FitsAs instance_of
  implementation-Fits none h = tt
  implementation-Fits (some a) h = h

  pub set_pointer-Fits :
      (o : Object) (c : Content) → Stored (FitsAs g pointer_type t) (set_pointer g t o c)
  unfolding set_pointer FitsAs
  set_pointer-Fits none_object c = tt
  set_pointer-Fits (pointer_object u a) c =
      Stored-if (FitsAs g pointer_type t) (g.is_a t u) (pointer a) c (λ h. tt)
  set_pointer-Fits (cobject a) c = tt
  set_pointer-Fits o c = tt

  pub set_param-Fits : (o : Object) (c : Content) → Stored (FitsAs g param_type t) (set_param o c)
  unfolding set_param as_void_ptr
  set_param-Fits (param_object a) c = tt
  set_param-Fits o c = tt

  pub set_real-Fits :
      (f : Fundamental) (narrow : ℕ → ℕ) (py : Python) (o : Object)
      → IsReal f
      → Stored (FitsAs g f t) (set_real narrow py o)
  unfolding set_real FitsAs
  set_real-Fits f narrow py o h =
      choice-Stored (FitsAs g f t) (as_double py o) (λ b. stored (real (narrow b))) unset (λ b. h)
        tt

  pub text-Fits :
      (x : Option (List ℕ)) (c : Content)
      → Stored
          (FitsAs g string_type t)
          (elim x [ none ↦ refused c | some s ↦ stored (text (some (c_string s))) ])
  unfolding FitsAs
  text-Fits none c = tt
  text-Fits (some s) c = refl

  pub set_string-Fits :
      (py : Python) (o : Object) (c : Content) → Stored (FitsAs g string_type t) (set_string py o c)
  unfolding set_string FitsAs
  set_string-Fits py none_object c = refl
  set_string-Fits py o c = text-Fits (object_str py o) c
