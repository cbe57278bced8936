-- ===== src/Signals/Emit.antt =====
-- pygobject_emit of gobject/pygobject.c.
use debian_pygobject.Base.{
  ℕ, Bool, true, false, not, Option, none, some, List, [], ◌∷◌, map, length, ◌==◌, if◌then◌else◌,
  CString,
}
use debian_pygobject.Signals.{
  SignalError, bad_argument, too_few_arguments, not_initialized, unknown_signal, wrong_count,
  cannot_convert,
}
use debian_pygobject.Values.{
  Object, none_object, Content, pointer, Answer, stored, refused, unset, out_of_fuel,
}
use debian_pygobject.Values.ToPython.{Converted, object}

-- g_signal_query: the types of the parameters and of the result, without the static scope bit.
pub record SignalQuery : Type 0 where
  pub param_types : List ℕ
  pub return_type : Option ℕ

-- What the loop leaves: the parameters, or the error with the GValues that are then unset. Of a GValue
-- to unset it says whether it has a type; the conversion may have unset it already.
pub data Collected : Type 0 where
  collected : List (ℕ × Content) → Collected
  not_converted : List Bool → Collected
  collect_crashed : Collected

-- The GValues that are initialised but not reached.
unfoldable pub with_types : List ℕ → List Bool
with_types ts = map (λ t. true) ts

unfoldable pub cons_value : ℕ × Content → Collected → Collected
cons_value v (collected vs) = collected (v ∷ vs)
cons_value v (not_converted bs) = not_converted (true ∷ bs)
cons_value v collect_crashed = collect_crashed

-- The loop over the arguments; `from` is pyg_value_from_pyobject into a GValue of a type.
unfoldable pub collect_params : (ℕ → Object → Answer) → List ℕ → List Object → Collected
unfolding cons_value with_types
collect_params from [] os = collected []
collect_params from (t ∷ ts) [] = collect_crashed
collect_params from (t ∷ ts) (o ∷ os) =
    let rest = collect_params from ts os in
    elim (from t o) [
      | stored c ↦ cons_value (t, c) rest
      | refused c ↦ not_converted (true ∷ with_types ts)
      | unset ↦ not_converted (false ∷ with_types ts)
      | out_of_fuel ↦ collect_crashed
    ]

-- The end of pygobject_emit: an object, an exception, or a crash; and the GValues that the error path
-- unset, the instance first.
pub data Emission : Type 0 where
  emitted : Converted → Emission
  emit_error : SignalError → List Bool → Emission
  emit_crashed : Emission

-- The arguments after the name; `emitv` is g_signal_emitv, and gives what the return value holds.
unfoldable pub emit_query :
    (ℕ → Object → Answer)
    → (ℕ → Content → Converted)
    → (List (ℕ × Content) → Content)
    → SignalQuery
    → ℕ × Content
    → List Object
    → Emission
unfolding collect_params
emit_query from to_object emitv query instance os =
    if not (length os == length query.param_types)
    then emit_error wrong_count []
    else elim (collect_params from query.param_types os) [
      | collect_crashed ↦ emit_crashed
      | not_converted bs ↦ emit_error cannot_convert (true ∷ bs)
      | collected vs ↦
          let ret = emitv (instance ∷ vs) in
          elim query.return_type [
            | none ↦ emitted (object none_object)
            | some t ↦ emitted (to_object t ret)
          ]
    ]

-- `name` is the first argument as a string, if there is an argument and it is one; `obj` is the type
-- and the address of the GObject.
unfoldable pub emit :
    (ℕ → Object → Answer)
    → (ℕ → Content → Converted)
    → (List (ℕ × Content) → Content)
    → (CString → Option SignalQuery)
    → Option (ℕ × ℕ)
    → Option (Option CString)
    → List Object
    → Emission
unfolding emit_query
emit from to_object emitv query obj none os = emit_error too_few_arguments []
emit from to_object emitv query obj (some none) os = emit_error bad_argument []
emit from to_object emitv query none (some (some name)) os = emit_error not_initialized []
emit from to_object emitv query (some (t, a)) (some (some name)) os = elim (query name) [
  | none ↦ emit_error unknown_signal []
  | some q ↦ emit_query from to_object emitv q (t, pointer (some a)) os
]
