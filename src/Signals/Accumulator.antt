-- ===== src/Signals/Accumulator.antt =====
-- _pyg_signal_accumulator of gobject/gobjectmodule.c: a Python function gathers the results of the
-- handlers of a signal.
use debian_pygobject.Base.{ℕ, ◌≡◌, refl, Bool, true, false, Option, none, some, List, [], ◌∷◌}
use debian_pygobject.Values.{Object, python_object, Answer, stored, refused, unset, out_of_fuel}
use debian_pygobject.Values.ToPython.{Converted, object, no_object}

-- PyGSignalAccumulatorData
pub record AccumulatorData : Type 0 where
  pub callable : ℕ
  pub user_data : Option ℕ

-- What the function returns: an exception, an object that is no tuple of two, or the two items.
pub data Returned : Type 0 where
  raised not_pair : Returned
  pair : Object → Object → Returned

-- The value for GLib, which -1 makes `true` as well; the arguments of the function if it was called;
-- what became of the accumulated value if it was to be set; and how often an exception was printed.
pub record Accumulated : Type 0 where
  pub retval : Bool
  pub called : Option (List Object)
  pub return_accu : Option Answer
  pub printed : ℕ
  pub crashed : Bool

abbrev pub uncalled : Accumulated
uncalled = record {
  retval = false;
  called = none;
  return_accu = none;
  printed = 1;
  crashed = false;
}

-- PyObject_IsTrue, as a gboolean; `none` is -1.
unfoldable pub as_gboolean : Option Bool → Bool
as_gboolean none = true
as_gboolean (some b) = b

-- pyg_value_from_pyobject is not 0.
unfoldable pub failures : Answer → ℕ
failures (stored c) = 0
failures (refused c) = 1
failures unset = 1
failures out_of_fuel = 0

unfoldable pub accumulator_arguments : AccumulatorData → Object → Object → Object → List Object
accumulator_arguments d hint accu ret = elim d.user_data [
  | none ↦ hint ∷ accu ∷ ret ∷ []
  | some u ↦ hint ∷ accu ∷ ret ∷ python_object u ∷ []
]

-- After the call; `from` is pyg_value_from_pyobject into the accumulated value.
unfoldable pub accumulate :
    (Object → Option Bool) → (Object → Answer) → List Object → Returned → Accumulated
unfolding as_gboolean failures
accumulate is_true from args raised = record uncalled { called = some args }
accumulate is_true from args not_pair = record uncalled { called = some args }
accumulate is_true from args (pair b o) = record {
  retval = as_gboolean (is_true b);
  called = some args;
  return_accu = some (from o);
  printed = failures (from o);
  crashed = false;
}

-- The two values as they are converted; `hint` is the tuple of the signal, the detail and the stage. A
-- conversion that fails makes the call fail before the function runs.
unfoldable pub signal_accumulator :
    (Object → Option Bool)
    → (Object → Answer)
    → (ℕ → List Object → Returned)
    → AccumulatorData
    → Object
    → Converted
    → Converted
    → Accumulated
unfolding accumulator_arguments accumulate
signal_accumulator is_true from call d hint (object ret) (object accu) =
    let args = accumulator_arguments d hint accu ret in
    accumulate is_true from args (call d.callable args)
signal_accumulator is_true from call d hint (object ret) no_object = uncalled
signal_accumulator is_true from call d hint no_object (object accu) = uncalled
signal_accumulator is_true from call d hint no_object no_object = uncalled
signal_accumulator is_true from call d hint ret accu = record uncalled { crashed = true }

module _ (is_true : Object → Option Bool) (from : Object → Answer)
    (call : ℕ → List Object → Returned) (d : AccumulatorData) (hint : Object) where
  -- An exception of the function stops the emission, leaves the
  -- accumulated value as it was, and is printed once.
  pub signal_accumulator-failed :
      (ret accu : Object)
      → call d.callable (accumulator_arguments d hint accu ret) ≡ raised
      → ((signal_accumulator is_true from call d hint (object ret) (object accu)).retval ≡ false)
        × ((signal_accumulator is_true from call d hint (object ret) (object accu)).return_accu
            ≡ none)
        × ((signal_accumulator is_true from call d hint (object ret) (object accu)).printed ≡ 1)
  unfolding signal_accumulator accumulate
  signal_accumulator-failed ret accu e = rw (e, signal_accumulator) (refl, refl, refl)
