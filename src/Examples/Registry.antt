-- ===== src/Examples/Registry.antt =====
-- The theorems on option groups, the classes of types and param specs at sample values.
use debian_pygobject.Base.{
  Bool, ℕ, ◌-◌, ◌+◌, ◌<◌, ◌≡◌, refl, true, false, not, none, some, is_some, [], ◌∷◌, ◌&&◌, ◌==◌,
  arith, if◌then◌else◌, codes,
}
use debian_pygobject.CInt.{pos}
use debian_pygobject.Errors.{Exception, gerror_exception, text, int, is_gerror}
use debian_pygobject.Errors
use debian_pygobject.Options.{Context, group_init}
use debian_pygobject.Options
use debian_pygobject.Options.Parsing.{arg_func, has_attributes, arg_func_lem}
use debian_pygobject.Classes.{
  World, Env, looked, lookup_class, known_class, kept_class, drop_custom, keep_class,
  new_with_interfaces, type_get_bases, lookup_all, cons_base, cons_class, make_class, new_class,
  add_attribute, module_and_name,
}
use debian_pygobject.Classes.Found.{Ends, IsRanked, lookup_class-Ends}
use debian_pygobject.Classes.Again.{lookup_class-again}
use debian_pygobject.Slots.{Slots}
use debian_pygobject.Constants.Convert.{other_arg}
use debian_pygobject.Registration.PropertySpecs.{Item}
use debian_pygobject.Registration.SpecRanges.{InRange}

-- Two contexts and any number of new groups.
abbrev fresh : Options.World
fresh = record {
  groups = λ g. group_init (100 + g) 3;
  contexts = λ c. record { context = some c; main_group = none };
  calls = [];
}

-- A GError whose code is a string.
abbrev malformed : Exception
malformed = record {
  class_of = gerror_exception;
  domain = text (codes "option");
  code = text (codes "1");
  message = text (codes "bad value");
}

abbrev raising : Errors.World
raising = record { exception_table = none; pending = some malformed; printed = []; unreleased = [] }

arg_func_lem_example :
    ((arg_func (λ s. 1) false raising).0
      ≡ not (is_gerror malformed.class_of && has_attributes malformed))
    × (is_some (arg_func (λ s. 1) false raising).1.0 ≡ is_gerror malformed.class_of)
    × ((arg_func (λ s. 1) false raising).1.1.pending ≡ none)
    × (is_gerror malformed.class_of ≡ false
        → (arg_func (λ s. 1) false raising).1.1.printed ≡ malformed ∷ raising.printed)
arg_func_lem_example = arg_func_lem (λ s. 1) raising malformed refl

abbrev no_slots : Slots
no_slots k = none

-- The type 1 is G_TYPE_OBJECT, the parent of each type is the one before, and that of 0 is 0.
abbrev env : Env
env = record {
  parent = λ t. t - 1;
  interfaces = λ t. [];
  type_name = λ t. codes "GtkButton";
  imported = λ t. none;
  creates = λ t. true;
  ready = λ t. true;
  has_module = λ s. true;
  interface_gtype = 100;
  object_gtype = 1;
  ginterface_class = 9;
  gobject_slots = no_slots;
  object_slots = no_slots;
}

abbrev world : World
world = record {
  next = 12;
  classes = λ c. record {
    bases = [];
    gtype = 0;
    mod_name = codes "gobject";
    name = codes "GObject";
    slots = no_slots;
  };
  class_of = λ t. if t == 1 then some 11 else none;
  interface_of = λ t. none;
  attributes = [];
  custom = λ s. none;
}

abbrev is_object : ℕ → Bool
is_object t = not (t == 0)

env-IsRanked : IsRanked is_object (λ t. t) env
env-IsRanked t there below other = (ground (arith, there, below), ground (arith, there, below), tt)

lookup_class-Ends_example : Ends (lookup_class 4 env (λ bs. no_slots) 3 world).0
lookup_class-Ends_example =
    lookup_class-Ends env (λ bs. no_slots) is_object (λ t. t) env-IsRanked 4 3 world refl
      (omega arith)

lookup_class-again_example :
    lookup_class 1 env (λ bs. no_slots) 3 (lookup_class 4 env (λ bs. no_slots) 3 world).1
    ≡ (looked (some 13), (lookup_class 4 env (λ bs. no_slots) 3 world).1)
unfolding lookup_class known_class kept_class drop_custom keep_class new_with_interfaces
    type_get_bases lookup_all cons_base cons_class make_class new_class add_attribute
    module_and_name
lookup_class-again_example =
    lookup_class-again 4 0 env (λ bs. no_slots) 3 13 world
      (lookup_class 4 env (λ bs. no_slots) 3 world).1 refl refl refl

abbrev number : ℕ → Item
number n = record {
  as_char = none;
  as_int = some (pos n);
  as_long = some (pos n);
  as_any = some (pos n);
  as_double = none;
  as_text = none;
  constant = other_arg;
}

number-InRange : (n : ℕ) → n < 1000 → InRange (number n)
number-InRange n h =
    (λ b e. absurd (cc e), λ v e. ground (arith, h, e), λ v e. ground (arith, h, e))
