-- ===== src/Signals/Marshal.antt =====
-- pyg_closure_marshal of gobject/pygtype.c: a signal is emitted, and the Python callback is called.
use debian_pygobject.Base.{
  ℕ, ◌+◌, ◌-◌, Bool, true, false, Option, none, some, List, [], ◌∷◌, ◌++◌, map, if◌then◌else◌,
}
use debian_pygobject.Closures.{PyGClosure}
use debian_pygobject.Values.{Object, python_object, Answer, stored, refused, unset, out_of_fuel}
use debian_pygobject.Values.ToPython.{
  Converted, object, no_object, null_dereference, lookup_out_of_fuel,
}

-- The tuple of the parameters, a conversion that failed, the missing data at g_return_if_fail, or no
-- end of the conversion.
pub data Params : Type 0 where
  params : List Object → Params
  item_failed swap_missing item_crashed : Params

unfoldable pub cons_param : Converted → Params → Params
cons_param (object o) (params os) = params (o ∷ os)
cons_param (object o) rest = rest
cons_param no_object rest = item_failed
cons_param null_dereference rest = item_crashed
cons_param lookup_out_of_fuel rest = item_crashed

-- What the callback's exception, or a result that does not fit, leads to.
pub data Report : Type 0 where
  no_report printed handled : Report

-- One call of the marshaller: how often the GIL is still taken and the tuple still referenced at the
-- end, the arguments of the callback if it was called, the report, and what became of the return
-- value if it was to be set.
pub record Marshalled : Type 0 where
  pub gil : ℕ
  pub tuples : ℕ
  pub called : Option (List Object)
  pub report : Report
  pub return_value : Option Answer
  pub crashed : Bool

-- The GIL, and references to the tuple of the parameters, that the marshaller has.
abbrev pub Held : Type 0
Held = ℕ × ℕ

abbrev pub ensure : Held → Held
ensure (gil, tuples) = (gil + 1, tuples)

abbrev pub release : Held → Held
release (gil, tuples) = (gil - 1, tuples)

abbrev pub new_tuple : Held → Held
new_tuple (gil, tuples) = (gil, tuples + 1)

abbrev pub decref_tuple : Held → Held
decref_tuple (gil, tuples) = (gil, tuples - 1)

-- After pyglib_gil_state_ensure and PyTuple_New.
abbrev pub entered : Held
entered = new_tuple (ensure (0, 0))

-- The label `out`, and the ends before it that release the tuple.
abbrev pub left : Held
left = release (decref_tuple entered)

abbrev pub ended : Option (List Object) → Report → Option Answer → Marshalled
ended args r answer = record {
  gil = left.0;
  tuples = left.1;
  called = args;
  report = r;
  return_value = answer;
  crashed = false;
}

abbrev pub crash : Marshalled
crash = record {
  gil = entered.0;
  tuples = entered.1;
  called = none;
  report = no_report;
  return_value = none;
  crashed = true;
}

-- g_return_if_fail leaves the function at once.
abbrev pub returned_early : Marshalled
returned_early = record crash { crashed = false }

unfoldable pub report_error : Bool → Report
report_error has_handler = if has_handler then handled else printed

-- The return value is set, unless GLib wants none (`from` is none).
unfoldable pub set_return : Bool → List Object → Option (Object → Answer) → Object → Marshalled
unfolding report_error
set_return has_handler args none ret = ended (some args) no_report none
set_return has_handler args (some from) ret = elim (from ret) [
  | stored c ↦ ended (some args) no_report (some (stored c))
  | refused c ↦ ended (some args) (report_error has_handler) (some (refused c))
  | unset ↦ ended (some args) (report_error has_handler) (some unset)
  | out_of_fuel ↦ crash
]

module _ {A : Type 0} (convert : A → Converted) where
  unfoldable pub items_of : List A → Params
  unfolding cons_param
  items_of [] = params []
  items_of (x ∷ xs) = cons_param (convert x) (items_of xs)

  -- The loop over the parameter values: the swapped data stands for the first.
  unfoldable pub build_params : PyGClosure → List A → Params
  unfolding items_of cons_param
  build_params pc [] = params []
  build_params pc (x ∷ xs) =
      if pc.derivative_flag
      then elim pc.swap_data [
        | none ↦ swap_missing
        | some d ↦ cons_param (object (python_object d)) (items_of xs)
      ]
      else items_of (x ∷ xs)

  -- PySequence_Concat with the extra arguments.
  unfoldable pub concat_extra : PyGClosure → List Object → List Object
  concat_extra pc ps = elim pc.extra_args [ none ↦ ps | some xs ↦ ps ++ map python_object xs ]

  -- `call` is PyObject_CallObject.
  unfoldable pub closure_marshal :
      (ℕ → List Object → Option Object)
      → Bool
      → PyGClosure
      → Option (Object → Answer)
      → List A
      → Marshalled
  unfolding build_params concat_extra set_return report_error
  closure_marshal call has_handler pc from values = elim (build_params pc values) [
    | item_failed ↦ ended none no_report none
    | swap_missing ↦ returned_early
    | item_crashed ↦ crash
    | params ps ↦ elim pc.callback [
      | none ↦ crash
      | some f ↦
          let args = concat_extra pc ps in
          elim (call f args) [
            | none ↦ ended (some args) (report_error has_handler) none
            | some ret ↦ set_return has_handler args from ret
          ]
    ]
  ]
