-- ===== src/Values/Ending.antt =====
-- That the cases of pyg_value_from_pyobject of gobject/pygtype.c end, if the conversions that they
-- call do.
use debian_pygobject.Base.{
  ℕ, ◌^◌, ◌%◌, ◌≡◌, refl, ltb, Bool, true, false, Option, none, some, List, [], ◌∷◌, ◌==◌,
  if◌then◌else◌,
}
use debian_pygobject.CInt.{ℤ, pos, negsuc}
use debian_pygobject.Constants.{Result, ok, err}
use debian_pygobject.Values.{
  Glib, Python, Object, none_object, gobject_object, pointer_object, param_object, cobject, Content,
  number, text, pointer, not_sequence, no_length, items, Answer, stored, refused, unset,
  out_of_fuel, c_string,
}
use debian_pygobject.Values.TypeFrom.{type_from_object}
use debian_pygobject.Values.Numbers.{
  set_bounded, set_number, as_unsigned, int_value, first_byte, object_str, set_uchar, is_true,
  is_long, set_boolean, set_uint, set_ulong, set_uint64, set_constant, set_string,
}
use debian_pygobject.Values.FromPython.{
  Built, built, failed, built_out_of_fuel, instance_of, set_object, set_pointer, as_void_ptr,
  set_param, plain_item_type, item_type, item_conversion, append_item, array_loop, take_array,
  wrong_length, value_array_from_pyobject, nested_answer, set_gvalue,
}

abbrev pub Ends : Answer → Type 0
Ends out_of_fuel = ⊥
Ends _ = Unit {0}

pub Ends-if : (b : Bool) (x y : Answer) → (b ≡ true → Ends x) → Ends y → Ends (if b then x else y)
Ends-if true x y h k = h refl
Ends-if false x y h k = k

pub Ends-choice {ℓ} :
    {A : Type ℓ} (x : Option A) (f : A → Answer) (d : Answer)
    → ((a : A) → Ends (f a))
    → Ends d
    → Ends (elim x [ some a ↦ f a | none ↦ d ])
Ends-choice none f d h k = k
Ends-choice (some a) f d h k = h a

fits-Ends : (b : Bool) (x y : Content) → Ends (if b then stored x else refused y)
fits-Ends true x y = tt
fits-Ends false x y = tt

pub set_bounded-Ends : (top : ℕ) (v : ℤ) (c : Content) → Ends (set_bounded top v c)
unfolding set_bounded
set_bounded-Ends top (pos n) c = fits-Ends (ltb n top) (number (pos n)) c
set_bounded-Ends top (negsuc n) c = tt

pub set_number-Ends : (conv : ℤ → ℤ) (x : Option ℤ) → Ends (set_number conv x)
unfolding set_number
set_number-Ends conv none = tt
set_number-Ends conv (some v) = tt

pub set_constant-Ends : (r : Result ℤ) (b : Bool) (c : Content) → Ends (set_constant r b c)
unfolding set_constant
set_constant-Ends (ok v) true c = tt
set_constant-Ends (ok v) false c = tt
set_constant-Ends (err e) b c = tt

pub set_object-Ends : (g : Glib) (t : ℕ) (o : Object) (c : Content) → Ends (set_object g t o c)
unfolding set_object
set_object-Ends g t none_object c = tt
set_object-Ends g t (gobject_object a) c = fits-Ends (instance_of g t a) (pointer a) c
set_object-Ends g t o c = tt

pub set_pointer-Ends : (g : Glib) (t : ℕ) (o : Object) (c : Content) → Ends (set_pointer g t o c)
unfolding set_pointer
set_pointer-Ends g t none_object c = tt
set_pointer-Ends g t (pointer_object u a) c = fits-Ends (g.is_a t u) (pointer a) c
set_pointer-Ends g t (cobject a) c = tt
set_pointer-Ends g t o c = tt

pub set_param-Ends : (o : Object) (c : Content) → Ends (set_param o c)
unfolding set_param as_void_ptr
set_param-Ends (param_object a) c = tt
set_param-Ends o c = tt

pub text-Ends :
    (x : Option (List ℕ)) (c : Content) (f : List ℕ → Content)
    → Ends (elim x [ none ↦ refused c | some s ↦ stored (f s) ])
text-Ends none c f = tt
text-Ends (some s) c f = tt

pub unsigned-Ends :
    (x : Option ℕ) (f : ℕ → Content) → Ends (elim x [ none ↦ unset | some n ↦ stored (f n) ])
unsigned-Ends none f = tt
unsigned-Ends (some n) f = tt

pub set_string-Ends : (py : Python) (o : Object) (c : Content) → Ends (set_string py o c)
unfolding set_string
set_string-Ends py none_object c = tt
set_string-Ends py o c = text-Ends (object_str py o) c (λ s. text (some (c_string s)))

pub set_boolean-Ends : (py : Python) (o : Object) → Ends (set_boolean py o)
unfolding set_boolean
set_boolean-Ends py o =
    Ends-choice (is_true py o) (λ b. stored (number (if b then pos 1 else pos 0))) unset (λ b. tt)
      tt

pub set_uchar-Ends : (py : Python) (o : Object) (c : Content) → Ends (set_uchar py o c)
unfolding set_uchar
set_uchar-Ends py o c =
    Ends-choice (int_value o) (λ v. set_bounded 256 v c)
      (elim (object_str py o) [ none ↦ refused c | some s ↦ stored (number (pos (first_byte s))) ])
      (λ v. set_bounded-Ends 256 v c)
      (text-Ends (object_str py o) c (λ s. number (pos (first_byte s))))

pub set_uint-Ends : (o : Object) (c : Content) → Ends (set_uint o c)
unfolding set_uint
set_uint-Ends o c =
    Ends-choice (int_value o) (λ v. set_bounded (2 ^ 32) v c)
      (elim (as_unsigned o) [ none ↦ unset | some n ↦ stored (number (pos (n % 2 ^ 32))) ])
      (λ v. set_bounded-Ends (2 ^ 32) v c)
      (unsigned-Ends (as_unsigned o) (λ n. number (pos (n % 2 ^ 32))))

pub set_ulong-Ends : (o : Object) (c : Content) → Ends (set_ulong o c)
unfolding set_ulong
set_ulong-Ends o c =
    Ends-choice (int_value o) (λ v. set_bounded (2 ^ 63) v c)
      (elim (as_unsigned o) [ none ↦ unset | some n ↦ stored (number (pos n)) ])
      (λ v. set_bounded-Ends (2 ^ 63) v c) (unsigned-Ends (as_unsigned o) (λ n. number (pos n)))

pub set_uint64-Ends : (o : Object) (c : Content) → Ends (set_uint64 o c)
unfolding set_uint64
set_uint64-Ends o c =
    Ends-choice (int_value o) (λ v. set_bounded (2 ^ 63) v c)
      (if is_long o
        then (elim (as_unsigned o) [ none ↦ unset | some n ↦ stored (number (pos n)) ])
        else refused c)
      (λ v. set_bounded-Ends (2 ^ 63) v c)
      (Ends-if (is_long o)
        (elim (as_unsigned o) [ none ↦ unset | some n ↦ stored (number (pos n)) ]) (refused c)
        (λ e. unsigned-Ends (as_unsigned o) (λ n. number (pos n))) tt)

-- The loop over a sequence, if the conversions of its items end.
abbrev BuiltEnds : Built → Type 0
BuiltEnds built_out_of_fuel = ⊥
BuiltEnds _ = Unit {0}

BuiltEnds-if : (b : Bool) (x y : Built) → BuiltEnds x → BuiltEnds y → BuiltEnds (if b then x else y)
BuiltEnds-if true x y h k = h
BuiltEnds-if false x y h k = k

append_item-Ends :
    (t : ℕ) (a : Answer) (b : Built) → Ends a → BuiltEnds b → BuiltEnds (append_item t a b)
unfolding append_item
append_item-Ends t (stored c) (built cs) h k = tt
append_item-Ends t (stored c) failed h k = tt
append_item-Ends t (stored c) built_out_of_fuel h k = k
append_item-Ends t (refused c) b h k = tt
append_item-Ends t unset b h k = tt
append_item-Ends t out_of_fuel b h k = h

take_array-Ends : (b : Built) (c : Content) → BuiltEnds b → Ends (take_array b c)
unfolding take_array
take_array-Ends (built cs) c h = tt
take_array-Ends failed c h = tt
take_array-Ends built_out_of_fuel c h = h

nested_answer-Ends : (t : ℕ) (a : Answer) → Ends a → Ends (nested_answer t a)
unfolding nested_answer
nested_answer-Ends t (stored c) h = tt
nested_answer-Ends t (refused c) h = tt
nested_answer-Ends t unset h = tt
nested_answer-Ends t out_of_fuel h = h

module _ (g : Glib) (py : Python) (from : ℕ → Content → Object → Answer) where
  array_loop-Ends :
      ((o : Object) → Ends (from (plain_item_type g py o) (g.initial (plain_item_type g py o)) o))
      → (xs : List (Option Object)) → BuiltEnds (array_loop from g py none xs)
  unfolding array_loop item_conversion item_type
  array_loop-Ends h [] = tt
  array_loop-Ends h (none ∷ xs) = tt
  array_loop-Ends h (some o ∷ xs) =
      let t = plain_item_type g py o in
      BuiltEnds-if (t == 0) failed
        (append_item t (from t (g.initial t) o) (array_loop from g py none xs)) tt
        (append_item-Ends t (from t (g.initial t) o) (array_loop from g py none xs) (h o)
          (array_loop-Ends h xs))

  pub value_array-Ends :
      ((o : Object) → Ends (from (plain_item_type g py o) (g.initial (plain_item_type g py o)) o))
      → (o : Object) (c : Content) → Ends (value_array_from_pyobject from g py none o c)
  unfolding value_array_from_pyobject wrong_length
  value_array-Ends h o c =
      elim (py.sequence o)
        as (λ x. Ends (elim x [
          | not_sequence ↦ refused c
          | no_length ↦ refused c
          | items xs ↦ take_array (array_loop from g py none xs) c
        ])) [
          | not_sequence ↦ tt
          | no_length ↦ tt
          | items xs ↦ take_array-Ends (array_loop from g py none xs) c (array_loop-Ends h xs)
        ]

  pub set_gvalue-Ends :
      (o : Object) (c : Content)
      → (let t = type_from_object g (py.class_of o) in Ends (from t (g.initial t) o))
      → Ends (set_gvalue from g py o c)
  unfolding set_gvalue
  set_gvalue-Ends o c h =
      let t = type_from_object g (py.class_of o) in
      Ends-if (t == 0) (refused c) (nested_answer t (from t (g.initial t) o)) (λ e. tt)
        (nested_answer-Ends t (from t (g.initial t) o) h)
