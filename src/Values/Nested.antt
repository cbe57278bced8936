-- ===== src/Values/Nested.antt =====
-- That what pyg_value_from_pyobject of gobject/pygtype.c stores in a GValue inside another, or in an array,
-- is what the types of those allow.
use debian_pygobject.Base.{
  ℕ, ◌≡◌, refl, Bool, true, false, Option, none, some, List, [], ◌∷◌, ◌==◌, if◌then◌else◌,
}
use debian_pygobject.Values.{
  Glib, Python, Object, boxed_type, Content, not_sequence, no_length, items, Answer, stored,
  refused, unset, out_of_fuel,
}
use debian_pygobject.Values.TypeFrom.{type_from_object}
use debian_pygobject.Values.Fitting.{FitsAs, AllFit, Stored}
use debian_pygobject.Values.Sized.{if-Stored}
use debian_pygobject.Values.FromPython.{
  Built, built, failed, built_out_of_fuel, item_type, item_conversion, append_item, array_loop,
  take_array, wrong_length, value_array_from_pyobject, nested_answer, set_gvalue,
}

abbrev BuiltFits : Glib → Built → Type 0
BuiltFits g (built cs) = AllFit g cs
BuiltFits g failed = Unit {0}
BuiltFits g built_out_of_fuel = Unit {0}

append_item-Fits :
    (g : Glib) (t : ℕ) (a : Answer) (rest : Built)
    → Stored (FitsAs g (g.fundamental t) t) a
    → BuiltFits g rest
    → BuiltFits g (append_item t a rest)
unfolding append_item FitsAs
append_item-Fits g t (stored c) (built cs) h r = (h, r)
append_item-Fits g t (stored c) failed h r = tt
append_item-Fits g t (stored c) built_out_of_fuel h r = tt
append_item-Fits g t (refused c) rest h r = tt
append_item-Fits g t unset rest h r = tt
append_item-Fits g t out_of_fuel rest h r = tt

BuiltFits-if :
    (g : Glib) (b : Bool) (x : Built) → BuiltFits g x → BuiltFits g (if b then failed else x)
BuiltFits-if g true x h = tt
BuiltFits-if g false x h = h

-- The conversions of a GValue inside another, with less fuel.
module _ (g : Glib) (py : Python) (from : ℕ → Content → Object → Answer)
    (inner : (u : ℕ) (o : Object)
      → Stored (FitsAs g (g.fundamental u) u) (from u (g.initial u) o)) where
  array_loop-Fits : (xs : List (Option Object)) → BuiltFits g (array_loop from g py none xs)
  unfolding array_loop FitsAs item_conversion
  array_loop-Fits [] = tt
  array_loop-Fits (none ∷ xs) = tt
  array_loop-Fits (some o ∷ xs) =
      let t = item_type g py none o in
      BuiltFits-if g (t == 0) _
        (append_item-Fits g t (from t (g.initial t) o) _ (inner t o) (array_loop-Fits xs))

  module _ (t : ℕ) where
    take_array-Fits :
        (b : Built) (c : Content)
        → g.is_a t g.value_array_gtype ≡ true
        → BuiltFits g b
        → Stored (FitsAs g boxed_type t) (take_array b c)
    unfolding take_array FitsAs
    take_array-Fits (built cs) c a h = ((refl, a), h)
    take_array-Fits failed c a h = tt
    take_array-Fits built_out_of_fuel c a h = tt

    pub value_array-Fits :
        (o : Object) (c : Content)
        → g.is_a t g.value_array_gtype ≡ true
        → Stored (FitsAs g boxed_type t) (value_array_from_pyobject from g py none o c)
    unfolding value_array_from_pyobject wrong_length
    value_array-Fits o c a =
        elim (py.sequence o)
          as (λ x. Stored (FitsAs g boxed_type t) (elim x [
            | not_sequence ↦ refused c
            | no_length ↦ refused c
            | items xs ↦ take_array (array_loop from g py none xs) c
          ])) [
            | not_sequence ↦ tt
            | no_length ↦ tt
            | items xs ↦ take_array-Fits (array_loop from g py none xs) c a (array_loop-Fits xs)
          ]

    nested_answer-Fits :
        (u : ℕ) (a : Answer)
        → g.is_a t g.value_gtype ≡ true
        → Stored (FitsAs g (g.fundamental u) u) a
        → Stored (FitsAs g boxed_type t) (nested_answer u a)
    unfolding nested_answer FitsAs
    nested_answer-Fits u (stored c) h i = (refl, h, i)
    nested_answer-Fits u (refused c) h i = tt
    nested_answer-Fits u unset h i = tt
    nested_answer-Fits u out_of_fuel h i = tt

    pub set_gvalue-Fits :
        (o : Object) (c : Content)
        → g.is_a t g.value_gtype ≡ true
        → Stored (FitsAs g boxed_type t) (set_gvalue from g py o c)
    unfolding set_gvalue
    set_gvalue-Fits o c h =
        let u = type_from_object g (py.class_of o) in
        if-Stored (FitsAs g boxed_type t) (u == 0) (refused c) _ tt
          (nested_answer-Fits u (from u (g.initial u) o) h (inner u o))
