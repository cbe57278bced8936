-- ===== src/Signals/ClassClosure.antt =====
-- pyg_signal_class_closure_marshal and pyg_signal_class_closure_get of gobject/pygtype.c: the default
-- handler of a signal is the method `do_…` of the instance.
use debian_pygobject.Base.{
  ℕ, suc, Bool, true, not, ◌&&◌, Option, none, some, List, [], ◌∷◌, ◌++◌, ◌==◌, if◌then◌else◌,
  CString, codes,
}
use debian_pygobject.Values.{Object, Answer}
use debian_pygobject.Values.ToPython.{Converted}
use debian_pygobject.Signals.Marshal.{
  params, item_failed, swap_missing, item_crashed, items_of, Marshalled, ended, crash,
  returned_early, no_report, printed,
}

-- `if (*tmp == '-') *tmp = '_';`
unfoldable pub underscores : CString → CString
underscores [] = []
underscores (b ∷ bs) = (if b == 45 then 95 else b) ∷ underscores bs

unfoldable pub method_name : CString → CString
unfolding underscores
method_name signal = underscores (codes "do_" ++ signal)

-- An argument of the method after the call, if it is a boxed wrapper: its reference count, the address
-- of its value, and whether it owns the value.
pub record BoxedItem : Type 0 where
  pub refs : ℕ
  pub boxed : ℕ
  pub free_on_dealloc : Bool

-- The loop after the call, with the address of the next copy: a wrapper that others refer to gets a
-- value of its own.
unfoldable pub copy_referenced : ℕ → List (Option BoxedItem) → List (Option BoxedItem)
copy_referenced next [] = []
copy_referenced next (none ∷ xs) = none ∷ copy_referenced next xs
copy_referenced next (some x ∷ xs) =
    let kept = copy_referenced next xs in
    let later = copy_referenced (suc next) xs in
    if not (x.refs == 1) && not x.free_on_dealloc
    then some (record x { boxed = next; free_on_dealloc = true }) ∷ later
    else some x ∷ kept

-- What the first parameter value holds: no GObject, one whose wrapper cannot be made, or one with the
-- method of each name, if it has one.
pub data Instance : Type 0 where
  no_instance no_wrapper : Instance
  instance_methods : (CString → Option ℕ) → Instance

-- PyErr_Print for an exception of the method; its result is set, and a failure to do so ignored.
unfoldable pub class_result : List Object → Option (Object → Answer) → Option Object → Marshalled
class_result args from none = ended (some args) printed none
class_result args none (some ret) = ended (some args) no_report none
class_result args (some from) (some ret) = ended (some args) no_report (some (from ret))

module _ {A : Type 0} (convert : A → Converted) where
  -- `hint` is the name of the signal; `values` are the parameters after the instance.
  unfoldable pub class_closure_marshal :
      (ℕ → List Object → Option Object)
      → Option CString
      → Instance
      → Option (Object → Answer)
      → List A
      → Marshalled
  unfolding items_of method_name class_result
  class_closure_marshal call none receiver from values = returned_early
  class_closure_marshal call (some signal) no_instance from values = returned_early
  class_closure_marshal call (some signal) no_wrapper from values = returned_early
  class_closure_marshal call (some signal) (instance_methods find) from values =
      elim (find (method_name signal)) [
        | none ↦ ended none no_report none
        | some f ↦ elim (items_of convert values) [
          | item_failed ↦ ended none no_report none
          | swap_missing ↦ returned_early
          | item_crashed ↦ crash
          | params ps ↦ class_result ps from (call f ps)
        ]
      ]

-- The one closure that all class closures share: made at the first call, and kept.
unfoldable pub class_closure_get : ℕ → Option ℕ → ℕ × Option ℕ
class_closure_get fresh none = (fresh, some fresh)
class_closure_get fresh (some c) = (c, some c)
