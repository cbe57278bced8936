-- ===== src/Signals/Called.antt =====
-- What pyg_closure_marshal of gobject/pygtype.c calls a callback with, and what it leaves behind.
use mathlib.Core.Path.{subst}
use mathlib.Core.Option.{some-injective}
use debian_pygobject.Base.{
  ℕ, ◌≡◌, refl, ap, Bool, false, Option, none, some, List, [], ◌∷◌, ◌++◌, map,
}
use debian_pygobject.Closures.{PyGClosure, tuple, closure_new, closure_extra_args}
use debian_pygobject.Values.{Object, python_object, Answer, stored, refused, unset, out_of_fuel}
use debian_pygobject.Values.Ending.{Ends}
use debian_pygobject.Values.ToPython.{Converted, object}
use debian_pygobject.Signals.Marshal.{
  params, cons_param, items_of, build_params, concat_extra, report_error, set_return,
  closure_marshal, Marshalled, Report, ended, crash, no_report,
}

abbrev plain_closure : ℕ → List ℕ → PyGClosure
plain_closure f extra = record {
  callback = some f;
  extra_args = some extra;
  swap_data = none;
  derivative_flag = false;
}

-- Each value is converted to the object at its place.
abbrev pub Converts : {A : Type 0} → (A → Converted) → List A → List Object → Type 0
Converts convert [] [] = Unit {0}
Converts convert (x ∷ xs) (o ∷ os) = (convert x ≡ object o) × Converts convert xs os
Converts convert [] (o ∷ os) = ⊥
Converts convert (x ∷ xs) [] = ⊥

-- Setting the return value ends.
abbrev pub ReturnEnds : Option (Object → Answer) → Type 0
ReturnEnds none = Unit {0}
ReturnEnds (some from) = (o : Object) → Ends (from o)

-- A call of the callback with some arguments, after which nothing is held.
pub record IsCallOf (args : List Object) (r : Marshalled) : Type 0 where
  pub arguments : r.called ≡ some args
  pub released : r.gil ≡ 0
  pub dropped : r.tuples ≡ 0
  pub goes_on : r.crashed ≡ false

call_of :
    (args : List Object) (r : Report) (a : Option Answer) → IsCallOf args (ended (some args) r a)
call_of args r a = record { arguments = refl; released = refl; dropped = refl; goes_on = refl }

answer-IsCallOf :
    (h : Bool) (args : List Object) (a : Answer)
    → Ends a
    → IsCallOf args (elim a [
      | stored c ↦ ended (some args) no_report (some (stored c))
      | refused c ↦ ended (some args) (report_error h) (some (refused c))
      | unset ↦ ended (some args) (report_error h) (some unset)
      | out_of_fuel ↦ crash
    ])
answer-IsCallOf h args (stored c) e = call_of args _ _
answer-IsCallOf h args (refused c) e = call_of args _ _
answer-IsCallOf h args unset e = call_of args _ _
answer-IsCallOf h args out_of_fuel e = elim e [ ]

set_return-IsCallOf :
    (h : Bool) (args : List Object) (from : Option (Object → Answer)) (ret : Object)
    → ReturnEnds from
    → IsCallOf args (set_return h args from ret)
unfolding set_return
set_return-IsCallOf h args none ret e = call_of args _ _
set_return-IsCallOf h args (some from) ret e = answer-IsCallOf h args (from ret) (e ret)

result-IsCallOf :
    (h : Bool) (args : List Object) (from : Option (Object → Answer)) (x : Option Object)
    → ReturnEnds from
    → IsCallOf args (elim x [
      | none ↦ ended (some args) (report_error h) none
      | some ret ↦ set_return h args from ret
    ])
result-IsCallOf h args from none e = call_of args _ _
result-IsCallOf h args from (some ret) e = set_return-IsCallOf h args from ret e

module _ {A : Type 0} (convert : A → Converted) where
  pub items_of-params :
      (xs : List A) (os : List Object) → Converts convert xs os → items_of convert xs ≡ params os
  unfolding items_of cons_param
  items_of-params [] [] h = refl
  items_of-params (x ∷ xs) (o ∷ os) h = rw (h.0, items_of-params xs os h.1)
  items_of-params [] (o ∷ os) h = elim h [ ]
  items_of-params (x ∷ xs) [] h = elim h [ ]

  plain_params :
      (pc : PyGClosure) (values : List A) (os : List Object)
      → pc.derivative_flag ≡ false
      → Converts convert values os
      → build_params convert pc values ≡ params os
  unfolding build_params items_of
  plain_params pc [] [] e h = refl
  plain_params pc (x ∷ xs) (o ∷ os) e h = rw (e, build_params) (items_of-params (x ∷ xs) (o ∷ os) h)
  plain_params pc [] (o ∷ os) e h = elim h [ ]
  plain_params pc (x ∷ xs) [] e h = elim h [ ]

  module _ (call : ℕ → List Object → Option Object) (h : Bool) (from : Option (Object → Answer))
      (ends : ReturnEnds from) where
    called_with :
        (f : ℕ) (pc : PyGClosure) (values : List A) (os : List Object)
        → pc.callback ≡ some f
        → build_params convert pc values ≡ params os
        → IsCallOf (concat_extra convert pc os) (closure_marshal convert call h pc from values)
    unfolding closure_marshal
    called_with f pc values os here built =
        rw (built, closure_marshal, here)
          (result-IsCallOf h (concat_extra convert pc os) from (call f (concat_extra convert pc os))
            ends)

    -- A closure without data to swap in calls its callback with the parameters of the signal and then
    -- the extra arguments, if the parameters can be converted, and holds nothing afterwards, whatever
    -- the callback does.
    pub closure_marshal_plain :
        (f : ℕ) (extra : List ℕ) (pc : PyGClosure) (values : List A) (os : List Object)
        → closure_new (some f) (tuple extra) none ≡ some pc
        → Converts convert values os
        → IsCallOf (os ++ map python_object extra) (closure_marshal convert call h pc from values)
    unfolding closure_new closure_extra_args concat_extra build_params
    closure_marshal_plain f extra pc values os made conv =
        subst
          (λ k.
            IsCallOf (os ++ map python_object extra) (closure_marshal convert call h k from values))
          (some-injective _ _ made)
          (called_with f (plain_closure f extra) values os refl
            (plain_params (plain_closure f extra) values os refl conv))

    pub closure_marshal_swapped :
        (f d : ℕ) (extra : List ℕ) (pc : PyGClosure) (x : A) (values : List A) (os : List Object)
        → closure_new (some f) (tuple extra) (some d) ≡ some pc
        → Converts convert values os
        → IsCallOf
            (python_object d ∷ (os ++ map python_object extra))
            (closure_marshal convert call h pc from (x ∷ values))
    unfolding closure_new closure_extra_args concat_extra build_params cons_param
    closure_marshal_swapped f d extra pc x values os made conv =
        subst
          (λ k.
            IsCallOf (python_object d ∷ (os ++ map python_object extra))
              (closure_marshal convert call h k from (x ∷ values)))
          (some-injective _ _ made)
          (called_with f _ (x ∷ values) (python_object d ∷ os) refl
            (ap (cons_param (object (python_object d))) (items_of-params values os conv)))
