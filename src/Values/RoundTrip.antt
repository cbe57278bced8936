-- ===== src/Values/RoundTrip.antt =====
-- What comes back from pyg_value_from_pyobject and then pyg_value_as_pyobject of gobject/pygtype.c.
use mathlib.Core.Path.{subst}
use debian_pygobject.Base.{
  ℕ, suc, ◌^◌, ◌<◌, ◌≡◌, refl, sym, ap, ◌↔◌, Bool, false, ◌||◌, Option, some, List, [], ◌∷◌, arith,
  Bool-cases, inl, inr, ltb, ◌==◌,
}
use debian_pygobject.CInt.{ℤ, pos, negsuc, to_int-InInt, to_long-InLong, InInt, InLong}
use debian_pygobject.Values.{
  Glib, Python, Marshals, Object, int_object, long_object, text_object, param_object, Fundamental,
  int_type, uint_type, long_type, ulong_type, int64_type, uint64_type, string_type, param_type,
  Content, number, text, Answer, stored, c_string,
}
use debian_pygobject.Values.Numbers.{
  as_signed, as_unsigned, int_value, set_bounded, set_number, set_int, set_long, set_int64,
  set_uint, set_ulong, set_uint64, set_string, object_str,
}
use debian_pygobject.Values.Fitting.{NumberFits}
use debian_pygobject.Values.FromPython.{value_from_pyobject, switch_from, set_param, as_void_ptr}
use debian_pygobject.Values.ToPython.{
  Wrapping, object, value_as_pyobject, switch_as, int_or_long, get_number, get_string,
  string_object,
}

abbrev pub IsInteger : Fundamental → Type 0
IsInteger int_type = Unit {0}
IsInteger uint_type = Unit {0}
IsInteger long_type = Unit {0}
IsInteger ulong_type = Unit {0}
IsInteger int64_type = Unit {0}
IsInteger uint64_type = Unit {0}
IsInteger _ = ⊥

-- Numbers that fit a `long` are ints.
int_or_long-InLong : (v : ℤ) → InLong v → int_or_long v ≡ int_object v
unfolding int_or_long
int_or_long-InLong (pos n) h = ground arith
int_or_long-InLong (negsuc n) h = ground arith

int_or_long-large : (n : ℕ) → ltb n (2 ^ 63) ≡ false → int_or_long (pos n) ≡ long_object (pos n)
unfolding int_or_long
int_or_long-large n h = ground arith

InInt-InLong : (v : ℤ) → InInt v → InLong v
InInt-InLong (pos n) h = omega arith
InInt-InLong (negsuc n) h = omega arith

as_signed-int_or_long :
    (other : Object → Option ℤ) (v : ℤ) → InLong v → as_signed other (int_or_long v) ≡ some v
unfolding as_signed int_value
as_signed-int_or_long other v h = rw (int_or_long-InLong v h, to_long-InLong v h)

int_value-int_or_long : (v : ℤ) → InLong v → int_value (int_or_long v) ≡ some v
unfolding int_value
int_value-int_or_long v h = rw (int_or_long-InLong v h, to_long-InLong v h)

set_bounded-lt :
    (top n : ℕ) (c : Content) → n < top → set_bounded top (pos n) c ≡ stored (number (pos n))
unfolding set_bounded
set_bounded-lt top n c h = ground arith

set_int-int_or_long :
    (py : Python) (v : ℤ) → InInt v → set_int py (int_or_long v) ≡ stored (number v)
unfolding set_int set_number
set_int-int_or_long py v h =
    rw (as_signed-int_or_long py.as_long v (InInt-InLong v h), to_int-InInt v h)

set_long-int_or_long :
    (py : Python) (v : ℤ) → InLong v → set_long py (int_or_long v) ≡ stored (number v)
unfolding set_long set_number
set_long-int_or_long py v h = rw (as_signed-int_or_long py.as_long v h)

set_int64-int_or_long :
    (py : Python) (v : ℤ) → InLong v → set_int64 py (int_or_long v) ≡ stored (number v)
unfolding set_int64 set_number
set_int64-int_or_long py v h = rw (as_signed-int_or_long py.as_long_long v h)

set_uint-int_or_long :
    (n : ℕ) (c : Content) → n < 2 ^ 32 → set_uint (int_or_long (pos n)) c ≡ stored (number (pos n))
unfolding set_uint
set_uint-int_or_long n c h =
    rw (int_value-int_or_long (pos n) (omega arith), set_uint) (set_bounded-lt (2 ^ 32) n c h)

as_unsigned-some : (n : ℕ) → n < 2 ^ 64 → as_unsigned (long_object (pos n)) ≡ some n
unfolding as_unsigned
as_unsigned-some n h = ground arith

set_ulong-long :
    (n : ℕ) (c : Content) → n < 2 ^ 64 → set_ulong (long_object (pos n)) c ≡ stored (number (pos n))
unfolding set_ulong int_value
set_ulong-long n c h = rw (as_unsigned-some n h, set_ulong)

set_uint64-long :
    (n : ℕ) (c : Content)
    → n < 2 ^ 64
    → set_uint64 (long_object (pos n)) c ≡ stored (number (pos n))
unfolding set_uint64 int_value
set_uint64-long n c h = rw (as_unsigned-some n h, set_uint64)

set_ulong-int_or_long :
    (n : ℕ) (c : Content) → n < 2 ^ 64 → set_ulong (int_or_long (pos n)) c ≡ stored (number (pos n))
unfolding set_ulong
set_ulong-int_or_long n c h = elim (Bool-cases (ltb n (2 ^ 63))) [
  | inl small ↦
      rw (int_value-int_or_long (pos n) (ground arith), set_ulong)
        (set_bounded-lt (2 ^ 63) n c (ground arith))
  | inr large ↦ rw (int_or_long-large n large) (set_ulong-long n c h)
]

set_uint64-int_or_long :
    (n : ℕ) (c : Content)
    → n < 2 ^ 64
    → set_uint64 (int_or_long (pos n)) c ≡ stored (number (pos n))
unfolding set_uint64
set_uint64-int_or_long n c h = elim (Bool-cases (ltb n (2 ^ 63))) [
  | inl small ↦
      rw (int_value-int_or_long (pos n) (ground arith), set_uint64)
        (set_bounded-lt (2 ^ 63) n c (ground arith))
  | inr large ↦ rw (int_or_long-large n large) (set_uint64-long n c h)
]

-- The numbers that an integer type can hold are stored and come back as they were, as an int if a C
-- `long` can hold them and as a Python long otherwise.
pub number_roundtrip :
    (fuel depth : ℕ) (g : Glib) (py : Python) (m : Marshals) (w : Wrapping) (copy : Bool)
    → (f : Fundamental) (v : ℤ) (t : ℕ) (c : Content) → IsInteger f
    → NumberFits f v
    → g.fundamental t ≡ f
    → (value_from_pyobject (suc fuel) depth g py m t c (int_or_long v) ≡ stored (number v))
      × (value_as_pyobject depth g m w copy t (number v) ≡ object (int_or_long v))
unfolding value_from_pyobject value_as_pyobject switch_from switch_as get_number
number_roundtrip fuel depth g py m w copy int_type v t c i h e =
    rw (e, switch_from, switch_as)
      (set_int-int_or_long py v h, ap object (sym (int_or_long-InLong v (InInt-InLong v h))))
number_roundtrip fuel depth g py m w copy uint_type (negsuc n) t c i h e = elim h [ ]
number_roundtrip fuel depth g py m w copy uint_type (pos n) t c i h e =
    rw (e, switch_from, switch_as)
      (set_uint-int_or_long n c h, ap object (sym (int_or_long-InLong (pos n) (omega arith))))
number_roundtrip fuel depth g py m w copy long_type v t c i h e =
    rw (e, switch_from, switch_as)
      (set_long-int_or_long py v h, ap object (sym (int_or_long-InLong v h)))
number_roundtrip fuel depth g py m w copy ulong_type (negsuc n) t c i h e = elim h [ ]
number_roundtrip fuel depth g py m w copy ulong_type (pos n) t c i h e =
    rw (e, switch_from, switch_as) (set_ulong-int_or_long n c h, refl)
number_roundtrip fuel depth g py m w copy int64_type v t c i h e =
    rw (e, switch_from, switch_as) (set_int64-int_or_long py v h, refl)
number_roundtrip fuel depth g py m w copy uint64_type (negsuc n) t c i h e = elim h [ ]
number_roundtrip fuel depth g py m w copy uint64_type (pos n) t c i h e =
    rw (e, switch_from, switch_as) (set_uint64-int_or_long n c h, refl)
number_roundtrip fuel depth g py m w copy f v t c i h e = elim i [ ]

abbrev pub has_nul : List ℕ → Bool
has_nul [] = false
has_nul (b ∷ bs) = (b == 0) || has_nul bs

c_string-same : (s : List ℕ) → has_nul s ≡ false → c_string s ≡ s
unfolding c_string
c_string-same [] h = refl
c_string-same (b ∷ bs) h = ground (arith, c_string-same bs)

c_string-has_nul : (s : List ℕ) → has_nul (c_string s) ≡ false
unfolding c_string
c_string-has_nul [] = refl
c_string-has_nul (b ∷ bs) = ground (arith, c_string-has_nul bs)

-- A string that is stored comes back exactly if it has no NUL: what follows the first NUL is lost.
pub string_roundtrip :
    (fuel depth : ℕ) (g : Glib) (py : Python) (m : Marshals) (w : Wrapping) (copy : Bool)
    → (s : List ℕ) (t : ℕ) (c : Content) → g.fundamental t ≡ string_type
    → (value_from_pyobject (suc fuel) depth g py m t c (text_object s)
        ≡ stored (text (some (c_string s))))
      × (value_as_pyobject depth g m w copy t (text (some (c_string s)))
          ≡ object (text_object (c_string s)))
      × ((c_string s ≡ s) ↔ (has_nul s ≡ false))
unfolding value_from_pyobject value_as_pyobject switch_from switch_as set_string object_str
    get_string string_object
string_roundtrip fuel depth g py m w copy s t c e = (
  rw (e, switch_from),
  rw (e, switch_as),
  (λ same. subst (λ x. has_nul x ≡ false) same (c_string-has_nul s), c_string-same s),
)

-- The property of the answers that store nothing.
abbrev pub StoresNothing : Answer → Type 0
StoresNothing (stored c) = ⊥
StoresNothing _ = Unit {0}

set_param-StoresNothing : (o : Object) (c : Content) → StoresNothing (set_param o c)
unfolding set_param as_void_ptr
set_param-StoresNothing (param_object a) c = tt
set_param-StoresNothing o c = tt

-- No object can be stored in a GValue that holds a GParamSpec: a GParamSpec wrapper is taken for a
-- PyCObject, which it is not, and the error unsets the GValue; any other object is refused.
pub param-StoresNothing :
    (fuel depth : ℕ) (g : Glib) (py : Python) (m : Marshals) (t : ℕ) (c : Content) (o : Object)
    → g.fundamental t ≡ param_type
    → StoresNothing (value_from_pyobject fuel depth g py m t c o)
unfolding value_from_pyobject
param-StoresNothing Prim.Native.Nat.zero depth g py m t c o e = tt
param-StoresNothing (suc fuel) depth g py m t c o e =
    rw (e, value_from_pyobject, switch_from) (set_param-StoresNothing o c)
