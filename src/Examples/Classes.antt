-- ===== src/Examples/Classes.antt =====
-- The theorems on registration at a class with one interface and one signal that it overrides.
use debian_pygobject.Base.{
  ℕ, ◌<◌, ◌≡◌, refl, true, false, none, some, List, [], ◌∷◌, ◌==◌, if◌then◌else◌, arith, times,
  codes,
}
use debian_pygobject.Values.{wrapper_arg}
use debian_pygobject.Values.TypeFrom.{type_from_object}
use debian_pygobject.Registration.{
  interface_base, other_base, run_list, run_then, run_class_init, is_wanted, add_interfaces,
}
use debian_pygobject.Registration.NewSignals.{
  none_value, add_signals, add_signal, overriding, override_signal, set_texts, set_text,
}
use debian_pygobject.Registration.Register.{
  Env, PyClass, entries, absent, Event, registers, then_stage, signals_stage, properties_stage,
  interfaces_stage, class_init_stage, last_stage, class_events, fill_type, given_or_new,
  type_register,
}
use debian_pygobject.Registration.FirstFree.{Line, along, run_class_init-Line}
use debian_pygobject.Registration.Interfaces.{implemented}
use debian_pygobject.Registration.Registered.{added, type_register-added}
use debian_pygobject.Signals.ClassClosure.{underscores}
use debian_pygobject.Examples.Conversions.{glib}

abbrev env : Env
env = record {
  glib = glib;
  is_taken = λ s. false;
  register_static = λ p name. 70;
  new_constructor = λ p. true;
  parent_has = λ p t. false;
  has_info = λ t. true;
  creates = λ name. true;
  lookup = λ name. 5;
  create = λ name t v flags. none;
  inits = λ t. [];
  init_fails = λ f. false;
}

abbrev class : PyClass
class = record {
  gtype = wrapper_arg 1;
  class_module = some (codes "app");
  tp_name = codes "Window";
  bases = interface_base 30 true ∷ (other_base ∷ []);
  gsignals = entries ((some (codes "changed"), none_value) ∷ []);
  gproperties = absent;
  has_doc = false;
}

type_register-added_example :
    (rest : List Event) × ((type_register 2 env class (some (codes "Window"))).1
      ≡ registers
          (type_from_object env.glib class.gtype)
          (given_or_new env class (some (codes "Window")))
        ∷ rest)
    × (times 30 (added rest) ≡ implemented env.has_info 30 class.bases)
unfolding type_register fill_type then_stage signals_stage properties_stage interfaces_stage
    class_init_stage last_stage class_events given_or_new type_from_object add_signals add_signal
    overriding override_signal set_texts set_text run_class_init run_list run_then add_interfaces
    is_wanted underscores
type_register-added_example = type_register-added 2 env class (some (codes "Window")) 30 refl

-- The type 2 below the type 1.
abbrev parent : ℕ → ℕ
parent t = if t == 2 then 1 else 0

abbrev rank : ℕ → ℕ
rank t = if t == 2 then 1 else 0

rank-parent : (t : ℕ) → (parent t == 0) ≡ false → rank (parent t) < rank t
rank-parent t h = ground arith

abbrev inits : ℕ → List ℕ
inits t = t ∷ []

run_class_init-Line_example :
    (ts : List ℕ) × Line parent 2 ts
    × (run_class_init 2 parent inits (λ f. false) 2 ≡ some (run_list (λ f. false) (along inits ts)))
run_class_init-Line_example =
    run_class_init-Line parent rank inits (λ f. false) rank-parent 2 2 (omega arith)
