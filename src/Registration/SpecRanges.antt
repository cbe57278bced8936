-- ===== src/Registration/SpecRanges.antt =====
-- That the ranges of create_property, in gobject/gobjectmodule.c, fit their types.
use debian_pygobject.Base.{
  ℕ, ◌%◌, ◌<◌, ◌≡◌, refl, Option, none, some, List, [], ◌∷◌, arith, Option-cases, inl, inr,
}
use debian_pygobject.CInt.{ℤ, pos, negsuc, InInt, InLong}
use debian_pygobject.Constants.{Result, ok, err}
use debian_pygobject.Constants.Convert.{enum_get_value, flags_get_value}
use debian_pygobject.Values.{
  Glib, Fundamental, interface_type, char_type, uchar_type, boolean_type, int_type, uint_type,
  long_type, ulong_type, int64_type, uint64_type, enum_type, flags_type, float_type, double_type,
  string_type, pointer_type, boxed_type, param_type, object_type, none_type, other_type,
}
use debian_pygobject.Values.Fitting.{NumberFits}
use debian_pygobject.Values.Numbers.{to_char}
use debian_pygobject.Registration.PropertySpecs.{
  Item, Spec, ranged, typed_spec, pointer_spec, Request, calls, not_parsed, parse_one, parse_three,
  parse_none, range_of, constant_of, guint, gulong, request_for,
}

-- The range of a call: every number is one that the type can hold.
abbrev pub RangeFits : Request → Type 0
RangeFits (calls (ranged f a b c)) = NumberFits f a × NumberFits f b × NumberFits f c
RangeFits _ = Unit {0}

-- What the codes `c`, `i` and `l` give.
abbrev pub InRange : Item → Type 0
InRange x =
    ((b : ℕ) → x.as_char ≡ some b → b < 256)
    × ((v : ℤ) → x.as_int ≡ some v → InInt v)
    × ((v : ℤ) → x.as_long ≡ some v → InLong v)

abbrev pub AllInRange : List Item → Type 0
AllInRange [] = Unit {0}
AllInRange (x ∷ xs) = InRange x × AllInRange xs

module _ {ℓ} {A : Type ℓ} (read : Item → Option A) (f : Fundamental) (convert : A → ℤ)
    (h : (x : Item) (a : A) → InRange x → read x ≡ some a → NumberFits f (convert a)) where
  read-Fits :
      (o p q : Option A)
      → ((a : A) → o ≡ some a → NumberFits f (convert a))
      → ((a : A) → p ≡ some a → NumberFits f (convert a))
      → ((a : A) → q ≡ some a → NumberFits f (convert a))
      → RangeFits (elim o [
        | none ↦ not_parsed
        | some a ↦ elim p [
          | none ↦ not_parsed
          | some b ↦ elim q [ none ↦ not_parsed | some c ↦ range_of f convert a b c ]
        ]
      ])
  unfolding range_of
  read-Fits none p q x y z = tt
  read-Fits (some a) none q x y z = tt
  read-Fits (some a) (some b) none x y z = tt
  read-Fits (some a) (some b) (some c) x y z = (x a refl, y b refl, z c refl)

  three-Fits :
      (xs : List Item) → AllInRange xs → RangeFits (parse_three read (range_of f convert) xs)
  unfolding parse_three
  three-Fits [] r = tt
  three-Fits (x ∷ []) r = tt
  three-Fits (x ∷ y ∷ []) r = tt
  three-Fits (x ∷ y ∷ z ∷ []) (i, (j, (k, _))) =
      read-Fits (read x) (read y) (read z) (λ a. h x a i) (λ a. h y a j) (λ a. h z a k)
  three-Fits (x ∷ y ∷ z ∷ w ∷ xs) r = tt

to_char-Fits : (b : ℕ) → b < 256 → NumberFits char_type (to_char b)
unfolding to_char
to_char-Fits b h = ground arith

guint-Fits : (v : ℤ) → NumberFits uint_type (guint v)
guint-Fits (pos n) = ground arith
guint-Fits (negsuc n) = ground arith

gulong-Fits : (v : ℤ) → NumberFits ulong_type (gulong v)
gulong-Fits (pos n) = ground arith
gulong-Fits (negsuc n) = ground arith

one-Fits {ℓ} :
    {A : Type ℓ} (read : Item → Option A) (k : A → Request)
    → ((a : A) → RangeFits (k a))
    → (xs : List Item) → RangeFits (parse_one read k xs)
unfolding parse_one
one-Fits read k h [] = tt
one-Fits read k h (x ∷ []) = elim (Option-cases (read x)) [
  | inl refused ↦ rw (refused, parse_one) tt
  | inr (a, there) ↦ rw (there, parse_one) (h a)
]
one-Fits read k h (x ∷ y ∷ xs) = tt

any-Fits {ℓ} :
    {A : Type ℓ} (read : Item → Option A) (k : A → A → A → Request)
    → ((a b c : A) → RangeFits (k a b c))
    → (xs : List Item) → RangeFits (parse_three read k xs)
unfolding parse_three
any-Fits read k h [] = tt
any-Fits read k h (x ∷ []) = tt
any-Fits read k h (x ∷ y ∷ []) = tt
any-Fits read k h (x ∷ y ∷ z ∷ []) = elim (Option-cases (read x)) [
  | inl refused ↦ rw (refused, parse_three) tt
  | inr (a, p) ↦ elim (Option-cases (read y)) [
    | inl refused ↦ rw (p, refused, parse_three) tt
    | inr (b, q) ↦ elim (Option-cases (read z)) [
      | inl refused ↦ rw (p, q, refused, parse_three) tt
      | inr (c, r) ↦ rw (p, q, r, parse_three) (h a b c)
    ]
  ]
]
any-Fits read k h (x ∷ y ∷ z ∷ w ∷ xs) = tt

none-Fits : (s : Spec) → RangeFits (calls s) → (xs : List Item) → RangeFits (parse_none s xs)
unfolding parse_none
none-Fits s h [] = h
none-Fits s h (x ∷ xs) = tt

constant-Fits :
    (f : Fundamental) (t : ℕ) (convert : ℤ → ℤ) (r : Result ℤ)
    → RangeFits (constant_of f t convert r)
unfolding constant_of
constant-Fits f t convert (ok v) = tt
constant-Fits f t convert (err e) = tt

-- If the codes of PyArg_ParseTuple give what they are to give, a byte, a gint or a long, then the
-- minimum, the maximum and the default that create_property gives GLib for an integer type are numbers
-- that the type can hold, whatever is in the tuple.
pub request_for-Fits :
    (g : Glib) (f : Fundamental) (t : ℕ) (xs : List Item)
    → AllInRange xs
    → RangeFits (request_for g f t xs)
unfolding request_for
request_for-Fits g char_type t xs r =
    three-Fits (λ x. x.as_char) char_type to_char (λ x b i e. to_char-Fits b (i.0 b e)) xs r
request_for-Fits g uchar_type t xs r =
    three-Fits (λ x. x.as_char) uchar_type (λ b. pos (b % 256)) (λ x b i e. omega arith) xs r
request_for-Fits g int_type t xs r =
    three-Fits (λ x. x.as_int) int_type (λ v. v) (λ x v i e. i.1 v e) xs r
request_for-Fits g uint_type t xs r =
    three-Fits (λ x. x.as_any) uint_type guint (λ x v i e. guint-Fits v) xs r
request_for-Fits g long_type t xs r =
    three-Fits (λ x. x.as_long) long_type (λ v. v) (λ x v i e. i.2 v e) xs r
request_for-Fits g ulong_type t xs r =
    three-Fits (λ x. x.as_any) ulong_type gulong (λ x v i e. gulong-Fits v) xs r
request_for-Fits g int64_type t xs r =
    three-Fits (λ x. x.as_long) int64_type (λ v. v) (λ x v i e. i.2 v e) xs r
request_for-Fits g uint64_type t xs r =
    three-Fits (λ x. x.as_any) uint64_type gulong (λ x v i e. gulong-Fits v) xs r
request_for-Fits g boolean_type t xs r = one-Fits (λ x. x.as_int) _ (λ v. tt) xs
request_for-Fits g enum_type t xs r =
    one-Fits (λ x. some x.constant) _
      (λ a. constant-Fits enum_type t (λ v. v) (enum_get_value g.types (some t) a)) xs
request_for-Fits g flags_type t xs r =
    one-Fits (λ x. some x.constant) _
      (λ a. constant-Fits flags_type t guint (flags_get_value g.types (some t) a)) xs
request_for-Fits g float_type t xs r = any-Fits (λ x. x.as_double) _ (λ a b c. tt) xs
request_for-Fits g double_type t xs r = any-Fits (λ x. x.as_double) _ (λ a b c. tt) xs
request_for-Fits g string_type t xs r = one-Fits (λ x. x.as_text) _ (λ v. tt) xs
request_for-Fits g param_type t xs r = none-Fits (typed_spec param_type t) tt xs
request_for-Fits g boxed_type t xs r = none-Fits (typed_spec boxed_type t) tt xs
request_for-Fits g pointer_type t xs r = none-Fits pointer_spec tt xs
request_for-Fits g object_type t xs r = none-Fits (typed_spec object_type t) tt xs
request_for-Fits g interface_type t xs r = tt
request_for-Fits g none_type t xs r = tt
request_for-Fits g other_type t xs r = tt
