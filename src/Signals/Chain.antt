-- ===== src/Signals/Chain.antt =====
-- pygobject_chain_from_overridden of gobject/pygobject.c: the default handler of a parent class is run.
use mathlib.Core.Path.{fun_ext, subst}
use debian_pygobject.Base.{
  ℕ, ◌≡◌, refl, sym, ap, Option, none, some, List, [], ◌==◌, if◌then◌else◌, false, ==_iff,
  Bool-cases, inl, inr,
}
use debian_pygobject.Values.{
  Object, none_object, bool_object, int_object, long_object, float_object, text_object,
  gobject_object, boxed_object, pointer_object, param_object, cobject, list_object, python_object,
  Content, pointer, Answer, stored,
}
use debian_pygobject.Values.ToPython.{Converted}
use debian_pygobject.Signals.{not_initialized, unknown_signal}
use debian_pygobject.Signals.Emit.{SignalQuery, Emission, emit_error, emit_query}

-- An error of this function alone, or what an emission ends with.
pub data Chained : Type 0 where
  no_hint : Chained
  chained : Emission → Chained

-- pyg_boxed_check: a boxed wrapper of the very type; its pointer then is stored without a copy.
unfoldable pub boxed_check : ℕ → Object → Option (Option ℕ)
boxed_check t (boxed_object u a) = if u == t then some a else none
boxed_check t o = none

unfoldable pub chain_item : (ℕ → Object → Answer) → ℕ → Object → Answer
unfolding boxed_check
chain_item from t o = elim (boxed_check t o) [ some a ↦ stored (pointer a) | none ↦ from t o ]

-- `hint` is the signal of the invocation hint; the loop over the arguments and what follows it are
-- those of pygobject_emit, with `run` for g_signal_chain_from_overridden.
unfoldable pub chain_from_overridden :
    (ℕ → Object → Answer)
    → (ℕ → Content → Converted)
    → (List (ℕ × Content) → Content)
    → (ℕ → SignalQuery)
    → Option ℕ
    → Option (ℕ × ℕ)
    → List Object
    → Chained
unfolding chain_item emit_query
chain_from_overridden from to_object run query hint none os =
    chained (emit_error not_initialized [])
chain_from_overridden from to_object run query none (some obj) os = no_hint
chain_from_overridden from to_object run query (some signal) (some (t, a)) os =
    if signal == 0
    then chained (emit_error unknown_signal [])
    else chained
        (emit_query (chain_item from) to_object run (query signal) (t, pointer (some a)) os)

module _ (from : ℕ → Object → Answer)
    (boxed : (t : ℕ) (a : Option ℕ) → from t (boxed_object t a) ≡ stored (pointer a)) where
  chain_item-boxed :
      (t u : ℕ) (a : Option ℕ) → chain_item from t (boxed_object u a) ≡ from t (boxed_object u a)
  unfolding chain_item boxed_check
  chain_item-boxed t u a = elim (Bool-cases (u == t)) [
    | inl same ↦
        rw (same, chain_item)
          (sym (
            subst (λ v. from t (boxed_object v a) ≡ stored (pointer a)) (sym ((==_iff u t).0 same))
              (boxed t a)))
    | inr other ↦ rw (other, chain_item)
  ]

  chain_item_lem : (t : ℕ) (o : Object) → chain_item from t o ≡ from t o
  unfolding chain_item boxed_check
  chain_item_lem t none_object = refl
  chain_item_lem t (bool_object b) = refl
  chain_item_lem t (int_object n) = refl
  chain_item_lem t (long_object n) = refl
  chain_item_lem t (float_object b) = refl
  chain_item_lem t (text_object s) = refl
  chain_item_lem t (gobject_object a) = refl
  chain_item_lem t (boxed_object u a) = chain_item-boxed t u a
  chain_item_lem t (pointer_object u a) = refl
  chain_item_lem t (param_object a) = refl
  chain_item_lem t (cobject a) = refl
  chain_item_lem t (list_object os) = refl
  chain_item_lem t (python_object a) = refl

  -- If a boxed wrapper of the very type of a parameter is stored with its pointer, then for a known
  -- signal the function chains to the parent with the parameters that emit would emit the signal with,
  -- and ends as emit would.
  pub chain_from_overridden-emit :
      (to_object : ℕ → Content → Converted) (run : List (ℕ × Content) → Content)
      (query : ℕ → SignalQuery) (signal t a : ℕ) (os : List Object)
      → (signal == 0) ≡ false
      → chain_from_overridden from to_object run query (some signal) (some (t, a)) os
        ≡ chained (emit_query from to_object run (query signal) (t, pointer (some a)) os)
  unfolding chain_from_overridden
  chain_from_overridden-emit to_object run query signal t a os known =
      rw (known, chain_from_overridden)
        (ap
          (λ (f : ℕ → Object → Answer).
            chained (emit_query f to_object run (query signal) (t, pointer (some a)) os))
          (fun_ext (λ u. fun_ext (λ o. chain_item_lem u o))))
