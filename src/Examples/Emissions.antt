-- ===== src/Examples/Emissions.antt =====
-- The theorems on signals at one connection: the signal 7 of the object 5, with the callback 40.
use debian_pygobject.Base.{
  times, leb, ltb, ◌&&◌, ◌+◌, if◌then◌else◌, ℕ, ◌≡◌, refl, true, false, not, Option, none, some,
  List, [], ◌∷◌, ◌++◌, ◌==◌, map, codes,
}
use debian_pygobject.Closures.{PyGClosure, is_watched}
use debian_pygobject.Values.{
  Object, none_object, int_object, python_object, Content, number, pointer, Answer, stored, unset,
}
use debian_pygobject.Values.ToPython.{Converted, object, no_object}
use debian_pygobject.Signals.{PyArg, World, Env, ok, on_closure, blocks, connect_plain, by_func}
use debian_pygobject.Signals.Marshal.{closure_marshal}
use debian_pygobject.Signals.ClassClosure.{BoxedItem, copy_referenced}
use debian_pygobject.Signals.Emit.{SignalQuery}
use debian_pygobject.Signals.Called.{Converts, IsCallOf}
use debian_pygobject.Signals.Connected.{
  CanConnect, IsConnected, connected, addresses, connect-called, by_func-connect,
}
use debian_pygobject.Signals.Emitted.{all_safe, Unchanged, owned, copies, copy_referenced-safe}

abbrev env : Env
env = record {
  callable = λ f. true;
  parse_name = λ s. some (7, 0);
  handler_id = λ cs. 1;
  matching = λ cs a c. 1;
  is_connected = λ cs id. true;
  differs = λ f g. not (f == g);
}

abbrev before : World
before = record { obj = some 5; watched = []; closures = λ c. none; next_closure = 20; calls = [] }

abbrev name_arg : PyArg
name_arg = record { address = 30; as_text = some (codes "notify") }

abbrev callback_arg : PyArg
callback_arg = record { address = 40; as_text = none }

abbrev extra_arg : PyArg
extra_arg = record { address = 50; as_text = none }

abbrev itself : Object → Converted
itself o = object o

abbrev call : ℕ → List Object → Option Object
call f args = some none_object

env-CanConnect : CanConnect env before (codes "notify") 7 0 40
env-CanConnect = record { object = 5; initialized = refl; known = refl; is_callable = refl }

abbrev put : ℕ → Object → Answer
put t (int_object n) = stored (number n)
put t o = unset

abbrev get : ℕ → Content → Converted
get t (number n) = object (int_object n)
get t (pointer (some a)) = object (python_object a)
get t c = no_object

abbrev one_int : SignalQuery
one_int = record { param_types = 1 ∷ []; return_type = none }

abbrev closure : PyGClosure
closure = record {
  callback = some 40;
  extra_args = some (50 ∷ []);
  swap_data = none;
  derivative_flag = false;
}

abbrev shared : BoxedItem
shared = record { refs = 2; boxed = 60; free_on_dealloc = false }

connect-called_example :
    (w' : World) × (connect_plain false env (name_arg ∷ callback_arg ∷ (extra_arg ∷ [])) before
      ≡ ok (env.handler_id before.calls, w'))
    × IsConnected 7 0 false before w'
    × ((pc : PyGClosure) (values : List Object) (os : List Object)
        → w'.closures before.next_closure ≡ some pc
        → Converts itself values os
        → IsCallOf
            (os ++ map python_object (addresses (extra_arg ∷ [])))
            (closure_marshal itself call false pc none values))
connect-called_example =
    connect-called itself call false none tt env before false name_arg callback_arg (extra_arg ∷ [])
      (codes "notify") 7 0 refl env-CanConnect

by_func-connect_example :
    (let w' = connected 7 0 false 40 (50 ∷ []) none before in
      by_func blocks env 40 w'
      ≡ ok (
        env.matching w'.calls blocks before.next_closure,
        record w' { calls = on_closure blocks before.next_closure ∷ w'.calls },
      ))
unfolding is_watched
by_func-connect_example =
    by_func-connect env before false 40 (50 ∷ []) blocks (codes "notify") 7 0 env-CanConnect refl
      refl

copy_referenced-safe_example :
    (all_safe (copy_referenced 90 (some shared ∷ [])) ≡ true)
    × Unchanged (some shared ∷ []) (copy_referenced 90 (some shared ∷ []))
    × ((v : ℕ)
        → times v (owned (copy_referenced 90 (some shared ∷ [])))
          ≡ times v (owned (some shared ∷ []))
            + (if leb 90 v && ltb v (90 + copies (some shared ∷ [])) then 1 else 0))
copy_referenced-safe_example = copy_referenced-safe 90 (some shared ∷ [])
