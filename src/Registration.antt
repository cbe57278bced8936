-- ===== src/Registration.antt =====
-- Registering a Python class as a GType, in gobject/gobjectmodule.c: its name, its signals, its
-- interfaces, and the class init functions.
pub mod TypeName
pub mod NewSignals
pub mod Register
pub mod PropertySpecs
pub mod SpecRanges
pub mod FirstFree
pub mod Interfaces
pub mod Registered
use debian_pygobject.Base.{
  ℕ, suc, ◌+◌, Bool, true, false, not, ◌&&◌, ◌||◌, Option, none, some, List, [], ◌∷◌, ◌++◌, ◌==◌,
  if◌then◌else◌, CString,
}

-- A base of the class: what is no type or no GInterface, or an interface with its GType, and whether
-- the GType is one of an interface.
pub data Base : Type 0 where
  other_base : Base
  interface_base : ℕ → Bool → Base

-- pyg_type_add_interfaces: `is_parents` tells whether the parent type has the interface, `has_info`
-- whether it has been registered for Python. The interfaces that are added, in order.
unfoldable pub is_wanted : Bool → (ℕ → Bool) → ℕ → Bool
is_wanted new_interfaces is_parents t = if new_interfaces then not (is_parents t) else is_parents t

unfoldable pub add_interfaces : Bool → (ℕ → Bool) → (ℕ → Bool) → List Base → List ℕ
unfolding is_wanted
add_interfaces new_interfaces is_parents has_info [] = []
add_interfaces new_interfaces is_parents has_info (other_base ∷ bs) =
    add_interfaces new_interfaces is_parents has_info bs
add_interfaces new_interfaces is_parents has_info (interface_base t is_interface ∷ bs) =
    let rest = add_interfaces new_interfaces is_parents has_info bs in
    if is_interface && is_wanted new_interfaces is_parents t && has_info t then t ∷ rest else rest

-- The class init functions of a type, which are kept newest first.
unfoldable pub register_class_init : ℕ → ℕ → (ℕ → List ℕ) → ℕ → List ℕ
register_class_init t f inits u = if u == t then f ∷ inits u else inits u

-- The functions that were called, and whether one of them failed.
pub record Run : Type 0 where
  pub called : List ℕ
  pub failed : Bool

-- The loop over the functions of one type.
unfoldable pub run_list : (ℕ → Bool) → List ℕ → Run
run_list fails [] = record { called = []; failed = false }
run_list fails (f ∷ fs) =
    let rest = run_list fails fs in
    if fails f
    then record { called = f ∷ []; failed = true }
    else record { called = f ∷ rest.called; failed = rest.failed }

-- One run after another, unless the first failed.
unfoldable pub run_then : Run → Run → Run
run_then a b = if a.failed then a else record { called = a.called ++ b.called; failed = b.failed }

-- pyg_run_class_init: the parent's functions first. The fuel is the number of types that it may look
-- at; `none` is that it was not enough.
unfoldable pub run_class_init : ℕ → (ℕ → ℕ) → (ℕ → List ℕ) → (ℕ → Bool) → ℕ → Option Run
unfolding run_list run_then
run_class_init Prim.Native.Nat.zero parent inits fails t = none
run_class_init (suc fuel) parent inits fails t =
    let own = run_list fails (inits t) in
    let above = run_class_init fuel parent inits fails (parent t) in
    if parent t == 0 then some own else elim above [ none ↦ none | some r ↦ some (run_then r own) ]
