-- ===== src/Examples/Loops.antt =====
-- The theorems on sources, watches and processes at sample values.
use debian_pygobject.Base.{
  ℕ, ◌+◌, ◌≡◌, ◌↔◌, refl, true, false, none, some, List, [], ◌∷◌, ◌==◌, if◌then◌else◌, Option,
  arith, codes,
}
use debian_pygobject.CInt.{pos}
use debian_pygobject.Sources.{
  Source, Call, creates, attaches, destroys, default_idle, attach, destroy, hold, let_go, log, init,
}
use debian_pygobject.Sources
use debian_pygobject.Sources.Funcs.{Item, tuple, prepare, IsReady, Leaves, prepare-IsReady}
use debian_pygobject.Sources.History.{
  starts, initializing, attaching, destroying, attached_now, OnlyAttached, IsCounted,
  Reach-IsCounted,
}
use debian_pygobject.Watches.{
  Arg, World, handler, idle, incref_all, idle_add, add_handler, get_handler_priority, install,
  addresses,
}
use debian_pygobject.Watches
use debian_pygobject.Watches.Added.{held}
use debian_pygobject.Watches.History.{adding, idles, Reach-held}
use debian_pygobject.Watches.History
use debian_pygobject.Errors
use debian_pygobject.Spawn.{Memory, Args, items, Request, Reply, spawn_async}
use debian_pygobject.Spawn.Balanced.{IsBalanced, spawn_async-IsBalanced}

-- A source that has a context once it was attached.
abbrev context : List Call → Option ℕ
context cs = if attached_now cs == 0 then none else some 0

abbrev env : Sources.Env
env = record {
  context = context;
  attach_id = λ cs. 7;
  priority = λ cs. pos 0;
  can_recurse = λ cs. false;
  source_id = λ cs. 7;
  current_time = 0;
  callable = λ f. true;
}

env-OnlyAttached : OnlyAttached env
env-OnlyAttached cs h = ground (arith, h)

-- What is left of a source that was initialised twice, attached and destroyed.
abbrev ended : Source
ended = record {
  source = none;
  inst_dict = false;
  python_source = true;
  refs = 1;
  calls = destroys true ∷ attaches true none ∷ creates ∷ creates ∷ [];
}

Reach-IsCounted_example : IsCounted env 1 ended
unfolding attach destroy hold let_go log init
Reach-IsCounted_example =
    Reach-IsCounted env env-OnlyAttached
      (destroying 0 (attaching 0 7 none (initializing 0 6 (initializing 0 5 starts)) refl) refl)

abbrev object : ℕ → Item
object n = record { truth = some true; number = some (pos n) }

prepare-IsReady_example :
    (((prepare (tuple (object 1 ∷ object 20 ∷ []))).ready ≡ true)
        × ((prepare (tuple (object 1 ∷ object 20 ∷ []))).timeout ≡ some (pos 20))
      ↔ IsReady (tuple (object 1 ∷ object 20 ∷ [])) (pos 20))
    × ((prepare (tuple (object 1 ∷ object 20 ∷ []))).pending ≡ true
        → ((prepare (tuple (object 1 ∷ object 20 ∷ []))).ready ≡ true)
          × ((prepare (tuple (object 1 ∷ object 20 ∷ []))).printed ≡ false)
          × Leaves (tuple (object 1 ∷ object 20 ∷ [])))
prepare-IsReady_example = prepare-IsReady (tuple (object 1 ∷ object 20 ∷ [])) (pos 20)

abbrev argument : ℕ → Arg
argument v = record { address = v; as_int = none; as_unsigned = none; file_descriptor = none }

abbrev watch_env : Watches.Env
watch_env = record { callable = λ f. true; next_id = λ ws. 1 }

-- An idle function 3 that is called with the object 4.
abbrev watching : World
watching = record {
  refs = incref_all (3 ∷ 4 ∷ []) (λ v. 2);
  installed = (1, idle default_idle, handler 3 (4 ∷ [])) ∷ [];
}

Reach-held_example : watching.refs 4 ≡ 2 + held 4 watching.installed
unfolding idle_add add_handler get_handler_priority install addresses
Reach-held_example =
    Reach-held
      (adding watch_env (idles (argument 3 ∷ argument 4 ∷ []) none) 1 (History.starts (λ v. 2))
        refl)
      4

abbrev arguments : Args
arguments = record {
  argv = items (some (codes "ls") ∷ some (codes "-l") ∷ []);
  envp = none;
  working_directory = none;
  flags = pos 0;
  func = some 3;
  user_data = some 4;
  wants_input = false;
  wants_output = true;
  wants_error = false;
}

abbrev no_errors : Errors.World
no_errors = record { exception_table = none; pending = none; printed = []; unreleased = [] }

abbrev child : Request → Reply
child r = (none, pos 900, pos 0, pos 5, pos 0)

abbrev memory : Memory
memory = record { refs = λ v. 2; vectors = 0; callbacks = 0 }

spawn_async-IsBalanced_example :
    IsBalanced arguments memory
      (spawn_async (λ q. codes "spawn") child (λ f. true) (some arguments) memory no_errors)
spawn_async-IsBalanced_example =
    spawn_async-IsBalanced arguments memory (λ q. codes "spawn") child (λ f. true) no_errors
