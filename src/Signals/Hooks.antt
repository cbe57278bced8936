-- ===== src/Signals/Hooks.antt =====
-- Emission hooks: marshal_emission_hook, pyg_add_emission_hook and pyg_remove_emission_hook of
-- gobject/gobjectmodule.c.
use debian_pygobject.Base.{
  ℕ, ◌≡◌, Bool, true, false, not, Option, none, some, List, ◌∷◌, ◌++◌, map, if◌then◌else◌, ◌==◌,
  CString,
}
use debian_pygobject.Values.{Object, bool_object, python_object}
use debian_pygobject.Values.ToPython.{Converted}
use debian_pygobject.Signals.{PyArg}
use debian_pygobject.Signals.Marshal.{params, item_failed, swap_missing, item_crashed, items_of}
use debian_pygobject.Signals.Called.{Converts, items_of-params}

-- The tuple that a hook is registered with: the function and the tuple of its extra arguments.
pub record Hook : Type 0 where
  pub func : ℕ
  pub extra_args : List ℕ

-- One call of marshal_emission_hook: how often the GIL is still taken and the tuple of parameters
-- still referenced at the end, the arguments of the function if it was called, whether an exception
-- of it was printed, the value for GLib, and whether a null pointer was read.
pub record HookRun : Type 0 where
  pub gil : ℕ
  pub tuples : ℕ
  pub called : Option (List Object)
  pub printed : Bool
  pub retval : Bool
  pub crashed : Bool

-- retobj == Py_True
unfoldable pub is_py_true : Object → Bool
is_py_true (bool_object b) = b
is_py_true o = false

-- After the call of the function; `none` is an exception.
unfoldable pub finish_hook : List Object → Option Object → HookRun
unfolding is_py_true
finish_hook args none = record {
  gil = 0;
  tuples = 0;
  called = some args;
  printed = true;
  retval = false;
  crashed = false;
}
finish_hook args (some ret) = record {
  gil = 0;
  tuples = 0;
  called = some args;
  printed = false;
  retval = is_py_true ret;
  crashed = false;
}

-- A parameter could not be converted: the label `out` is behind the release of the tuple.
abbrev pub hook_failed : HookRun
hook_failed = record {
  gil = 0;
  tuples = 1;
  called = none;
  printed = false;
  retval = false;
  crashed = false;
}

abbrev pub hook_crashed : HookRun
hook_crashed = record hook_failed { gil = 1; crashed = true }

module _ {A : Type 0} (convert : A → Converted) where
  -- `call` is PyObject_CallObject.
  unfoldable pub marshal_emission_hook : (ℕ → List Object → Option Object) → Hook → List A → HookRun
  unfolding items_of finish_hook
  marshal_emission_hook call hook values = elim (items_of convert values) [
    | item_failed ↦ hook_failed
    | swap_missing ↦ hook_crashed
    | item_crashed ↦ hook_crashed
    | params ps ↦
        let args = ps ++ map python_object hook.extra_args in finish_hook args (call hook.func args)
  ]

pub data HookError : Type 0 where
  too_few_arguments bad_argument no_type not_callable unknown_signal : HookError

-- g_signal_add_emission_hook with the signal, the detail and the data; and
-- g_signal_remove_emission_hook with the signal and the id.
pub data HookCall : Type 0 where
  adds_hook : ℕ → ℕ → Hook → HookCall
  removes_hook : ℕ → ℕ → HookCall

-- pyg_type_from_object (0 with an exception), PyCallable_Check, g_signal_parse_name and the id of the
-- hook that is added next.
pub record HookEnv : Type 0 where
  pub type_from_object : ℕ → ℕ
  pub callable : ℕ → Bool
  pub parse_name : CString → ℕ → Option (ℕ × ℕ)
  pub hook_id : List HookCall → ℕ

pub data HookResult : Type 0 where
  hook_ok : ℕ → HookResult
  hook_none : HookResult
  hook_error : HookError → HookResult

-- From pyg_type_from_object on.
unfoldable pub add_parsed :
    HookEnv → ℕ → CString → ℕ → List PyArg → List HookCall → HookResult × List HookCall
add_parsed e pygtype name callback extra calls =
    let t = e.type_from_object pygtype in
    if t == 0
    then (hook_error no_type, calls)
    else if not (e.callable callback)
    then (hook_error not_callable, calls)
    else elim (e.parse_name name t) [
      | none ↦ (hook_error unknown_signal, calls)
      | some (signal, detail) ↦
          let hook : Hook = record { func = callback; extra_args = map (λ x. x.address) extra } in
          (hook_ok (e.hook_id calls), adds_hook signal detail hook ∷ calls)
    ]

-- The result with the calls to GLib, newest first.
unfoldable pub add_emission_hook : HookEnv → List PyArg → List HookCall → HookResult × List HookCall
unfolding add_parsed
add_emission_hook e (t ∷ x ∷ f ∷ extra) calls = elim x.as_text [
  | none ↦ (hook_error bad_argument, calls)
  | some name ↦ add_parsed e t.address name f.address extra calls
]
add_emission_hook e args calls = (hook_error too_few_arguments, calls)

-- The three arguments are `none` if they do not parse; the detail of the signal is not used.
unfoldable pub remove_emission_hook :
    HookEnv → Option (ℕ × (CString × ℕ)) → List HookCall → HookResult × List HookCall
remove_emission_hook e none calls = (hook_error bad_argument, calls)
remove_emission_hook e (some (pygtype, (name, id))) calls =
    let t = e.type_from_object pygtype in
    if t == 0 then (hook_error no_type, calls) else elim (e.parse_name name t) [
      | none ↦ (hook_error unknown_signal, calls)
      | some (signal, detail) ↦ (hook_none, removes_hook signal id ∷ calls)
    ]

module _ {A : Type 0} (convert : A → Converted) where
  -- If add_emission_hook gets past its tests, and the parameters of an emission can be converted, then
  -- GLib is given a hook which calls the function with them and then with the further arguments, and
  -- ends as that call does.
  pub add_emission_hook-called :
      (e : HookEnv) (t x f : PyArg) (extra : List PyArg) (calls : List HookCall) (name : CString)
      (signal detail : ℕ) (call : ℕ → List Object → Option Object) (values : List A)
      (ps : List Object)
      → x.as_text ≡ some name
      → (e.type_from_object t.address == 0) ≡ false
      → e.callable f.address ≡ true
      → e.parse_name name (e.type_from_object t.address) ≡ some (signal, detail)
      → Converts convert values ps
      → (hook : Hook) × (add_emission_hook e (t ∷ x ∷ f ∷ extra) calls
          ≡ (hook_ok (e.hook_id calls), adds_hook signal detail hook ∷ calls))
        × (marshal_emission_hook convert call hook values
            ≡ finish_hook
                (ps ++ map python_object (map (λ y. y.address) extra))
                (call f.address (ps ++ map python_object (map (λ y. y.address) extra))))
  unfolding add_emission_hook add_parsed marshal_emission_hook
  add_emission_hook-called e t x f extra calls name signal detail call values ps text typ can sig
        conv =
      (
        record { func = f.address; extra_args = map (λ y. y.address) extra },
        rw (text, add_emission_hook, typ, can, sig),
        rw (items_of-params convert values ps conv, marshal_emission_hook),
      )

  -- If a parameter cannot be converted, the function is not called, the hook is removed, and the tuple
  -- of the parameters is never released.
  pub marshal_emission_hook-leaks :
      (call : ℕ → List Object → Option Object) (hook : Hook) (values : List A)
      → items_of convert values ≡ item_failed
      → marshal_emission_hook convert call hook values ≡ hook_failed
  unfolding marshal_emission_hook
  marshal_emission_hook-leaks call hook values failed = rw (failed, marshal_emission_hook)
