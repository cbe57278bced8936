-- ===== src/Values/Sized.antt =====
-- That the numeric cases of pyg_value_from_pyobject of gobject/pygtype.c store numbers of the type.
use debian_pygobject.Base.{
  ℕ, ◌^◌, ◌%◌, ◌<◌, ◌≡◌, refl, Bool, true, false, Option, none, some, List, [], ◌∷◌, arith, ltb,
  if◌then◌else◌,
}
use debian_pygobject.CInt.{ℤ, pos, negsuc, to_int, to_long, InInt, InLong}
use debian_pygobject.Values.{
  Glib, Python, Object, bool_object, int_object, long_object, char_type, uchar_type, boolean_type,
  int_type, uint_type, long_type, ulong_type, int64_type, uint64_type, Content, number, Answer,
  stored, refused, unset,
}
use debian_pygobject.Values.Numbers.{
  set_bounded, set_number, as_signed, fits_long, int_value, as_unsigned, set_char, to_char,
  first_byte, object_str, set_uchar, is_true, set_boolean, set_int, set_long, set_int64, set_uint,
  set_ulong, set_uint64, is_long,
}
use debian_pygobject.Values.Fitting.{Below, InChar, FitsAs, Stored, Every}

pub to_int-InInt_all : (z : ℤ) → InInt (to_int z)
unfolding to_int
to_int-InInt_all (pos n) = ground arith
to_int-InInt_all (negsuc n) = ground arith

to_long-InLong_all : (z : ℤ) → InLong (to_long z)
unfolding to_long
to_long-InLong_all (pos n) = ground arith
to_long-InLong_all (negsuc n) = ground arith

fits_long-InLong : (z : ℤ) → fits_long z ≡ true → InLong z
unfolding fits_long
fits_long-InLong (pos n) h = ground arith
fits_long-InLong (negsuc n) h = ground arith

int_value-InLong : (o : Object) → Every InLong (int_value o)
unfolding int_value
int_value-InLong (bool_object true) = omega arith
int_value-InLong (bool_object false) = omega arith
int_value-InLong (int_object v) = to_long-InLong_all v
int_value-InLong _ = tt

Every-if :
    (P : ℤ → Type 0) (b : Bool) (a : ℤ) → (b ≡ true → P a) → Every P (if b then some a else none)
Every-if P true a h = h refl
Every-if P false a h = tt

truncated-InLong :
    (x : Option ℤ) → Every InLong (elim x [ none ↦ none | some v ↦ some (to_long v) ])
truncated-InLong none = tt
truncated-InLong (some v) = to_long-InLong_all v

as_signed-InLong : (other : Object → Option ℤ) (o : Object) → Every InLong (as_signed other o)
unfolding as_signed
as_signed-InLong other (long_object v) = Every-if InLong (fits_long v) v (fits_long-InLong v)
as_signed-InLong other (bool_object b) = int_value-InLong (bool_object b)
as_signed-InLong other (int_object v) = int_value-InLong (int_object v)
as_signed-InLong other o = truncated-InLong (other o)

Below-if :
    (b : Bool) (n : ℕ) (top : ℕ)
    → (b ≡ true → n < top)
    → Every (λ k. k < top) (if b then some n else none)
Below-if true n top h = h refl
Below-if false n top h = tt

as_unsigned-Below : (o : Object) → Every (λ n. n < 2 ^ 64) (as_unsigned o)
unfolding as_unsigned
as_unsigned-Below (long_object (pos n)) = Below-if (ltb n (2 ^ 64)) n (2 ^ 64) (λ h. ground arith)
as_unsigned-Below (long_object (negsuc n)) = tt
as_unsigned-Below _ = tt

to_char-InChar : (b : ℕ) → b < 256 → InChar (to_char b)
unfolding to_char
to_char-InChar b h = ground arith

first_byte-lt : (s : List ℕ) → first_byte s < 256
unfolding first_byte
first_byte-lt [] = omega arith
first_byte-lt (b ∷ bs) = ground arith

-- The setters, for any property of what they store.
module _ (P : Content → Type 0) where
  pub Stored-if :
      (b : Bool) (c c' : Content) → (b ≡ true → P c) → Stored P (if b then stored c else refused c')
  Stored-if true c c' h = h refl
  Stored-if false c c' h = tt

  set_number-Stored :
      (conv : ℤ → ℤ) (x : Option ℤ)
      → Every (λ v. P (number (conv v))) x
      → Stored P (set_number conv x)
  unfolding set_number
  set_number-Stored conv none h = tt
  set_number-Stored conv (some v) h = h

  set_bounded-Stored :
      (top : ℕ) (v : ℤ) (c : Content)
      → ((n : ℕ) → n < top → P (number (pos n)))
      → Stored P (set_bounded top v c)
  unfolding set_bounded
  set_bounded-Stored top (pos n) c h =
      Stored-if (ltb n top) (number (pos n)) c (λ small. h n (ground arith))
  set_bounded-Stored top (negsuc n) c h = tt

  unsigned-Stored :
      (conv : ℕ → ℕ) (x : Option ℕ)
      → Every (λ n. P (number (pos (conv n)))) x
      → Stored P (elim x [ none ↦ unset | some n ↦ stored (number (pos (conv n))) ])
  unsigned-Stored conv none h = tt
  unsigned-Stored conv (some n) h = h

  byte-Stored :
      (conv : ℕ → ℤ) (x : Option (List ℕ)) (c : Content)
      → ((b : ℕ) → b < 256 → P (number (conv b)))
      → Stored P (elim x [ none ↦ refused c | some s ↦ stored (number (conv (first_byte s))) ])
  byte-Stored conv none c h = tt
  byte-Stored conv (some s) c h = h (first_byte s) (first_byte-lt s)

Every-weaken {ℓ} :
    {A : Type ℓ} (P Q : A → Type 0) (x : Option A) → ((a : A) → P a → Q a) → Every P x → Every Q x
Every-weaken P Q none h e = tt
Every-weaken P Q (some a) h e = h a e

pub choice-Stored {ℓ} :
    {A : Type ℓ} (P : Content → Type 0) (x : Option A) (f : A → Answer) (d : Answer)
    → ((a : A) → Stored P (f a))
    → Stored P d
    → Stored P (elim x [ some a ↦ f a | none ↦ d ])
choice-Stored P none f d h e = e
choice-Stored P (some a) f d h e = h a

pub if-Stored :
    (P : Content → Type 0) (b : Bool) (x y : Answer)
    → Stored P x
    → Stored P y
    → Stored P (if b then x else y)
if-Stored P true x y p q = p
if-Stored P false x y p q = q

bit-Below : (b : Bool) → Below 2 (if b then pos 1 else pos 0)
bit-Below true = omega arith
bit-Below false = omega arith

module _ (g : Glib) (t : ℕ) where
  pub set_char-Fits :
      (py : Python) (o : Object) (c : Content) → Stored (FitsAs g char_type t) (set_char py o c)
  unfolding set_char FitsAs
  set_char-Fits py o c =
      byte-Stored (FitsAs g char_type t) to_char (object_str py o) c to_char-InChar

  pub set_uchar-Fits :
      (py : Python) (o : Object) (c : Content) → Stored (FitsAs g uchar_type t) (set_uchar py o c)
  unfolding set_uchar FitsAs
  set_uchar-Fits py o c =
      choice-Stored (FitsAs g uchar_type t) (int_value o) (λ v. set_bounded 256 v c) _
        (λ v. set_bounded-Stored (FitsAs g uchar_type t) 256 v c (λ n h. h))
        (byte-Stored (FitsAs g uchar_type t) pos (object_str py o) c (λ b h. h))

  pub set_boolean-Fits :
      (py : Python) (o : Object) → Stored (FitsAs g boolean_type t) (set_boolean py o)
  unfolding set_boolean FitsAs
  set_boolean-Fits py o =
      choice-Stored (FitsAs g boolean_type t) (is_true py o)
        (λ b. stored (number (if b then pos 1 else pos 0))) unset bit-Below tt

  pub set_int-Fits : (py : Python) (o : Object) → Stored (FitsAs g int_type t) (set_int py o)
  unfolding set_int FitsAs to_int
  set_int-Fits py o = set_number-Stored (FitsAs g int_type t) to_int (as_signed py.as_long o) (
      Every-weaken InLong (λ v. InInt (to_int v)) (as_signed py.as_long o)
        (λ v h. to_int-InInt_all v) (as_signed-InLong py.as_long o))

  pub set_long-Fits : (py : Python) (o : Object) → Stored (FitsAs g long_type t) (set_long py o)
  unfolding set_long FitsAs
  set_long-Fits py o =
      set_number-Stored (FitsAs g long_type t) (λ v. v) (as_signed py.as_long o)
        (as_signed-InLong py.as_long o)

  pub set_int64-Fits : (py : Python) (o : Object) → Stored (FitsAs g int64_type t) (set_int64 py o)
  unfolding set_int64 FitsAs
  set_int64-Fits py o =
      set_number-Stored (FitsAs g int64_type t) (λ v. v) (as_signed py.as_long_long o)
        (as_signed-InLong py.as_long_long o)

  pub set_uint-Fits : (o : Object) (c : Content) → Stored (FitsAs g uint_type t) (set_uint o c)
  unfolding set_uint FitsAs
  set_uint-Fits o c =
      choice-Stored (FitsAs g uint_type t) (int_value o) (λ v. set_bounded (2 ^ 32) v c) _
        (λ v. set_bounded-Stored (FitsAs g uint_type t) (2 ^ 32) v c (λ n h. h))
        (unsigned-Stored (FitsAs g uint_type t) (λ n. n % 2 ^ 32) (as_unsigned o)
          (Every-weaken (λ n. n < 2 ^ 64) (λ n. n % 2 ^ 32 < 2 ^ 32) (as_unsigned o)
            (λ n h. ground arith) (as_unsigned-Below o)))

  pub set_ulong-Fits : (o : Object) (c : Content) → Stored (FitsAs g ulong_type t) (set_ulong o c)
  unfolding set_ulong FitsAs
  set_ulong-Fits o c =
      choice-Stored (FitsAs g ulong_type t) (int_value o) (λ v. set_bounded (2 ^ 63) v c) _
        (λ v. set_bounded-Stored (FitsAs g ulong_type t) (2 ^ 63) v c (λ n h. omega arith))
        (unsigned-Stored (FitsAs g ulong_type t) (λ n. n) (as_unsigned o) (as_unsigned-Below o))

  pub set_uint64-Fits :
      (o : Object) (c : Content) → Stored (FitsAs g uint64_type t) (set_uint64 o c)
  unfolding set_uint64 FitsAs
  set_uint64-Fits o c =
      choice-Stored (FitsAs g uint64_type t) (int_value o) (λ v. set_bounded (2 ^ 63) v c) _
        (λ v. set_bounded-Stored (FitsAs g uint64_type t) (2 ^ 63) v c (λ n h. omega arith))
        (if-Stored (FitsAs g uint64_type t) (is_long o) _ (refused c)
          (unsigned-Stored (FitsAs g uint64_type t) (λ n. n) (as_unsigned o) (as_unsigned-Below o))
          tt)
