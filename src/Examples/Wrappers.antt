-- ===== src/Examples/Wrappers.antt =====
-- The theorems on wrappers at one object that is wrapped, gets a dictionary, and loses its wrapper.
use debian_pygobject.Base.{◌≡◌, refl, true, false, none, some, [], ◌+◌, ◌==◌}
use debian_pygobject.Wrapper.{Env, World, new_full, get_dict, py_decref, dealloc, find_sinkfunc}
use debian_pygobject.Wrapper.Invariant.{taken, dropped}
use debian_pygobject.Wrapper.Attach.{IsPlain}
use debian_pygobject.Wrapper.Steps.{wraps, Reach, here, next}
use debian_pygobject.Wrapper.Rewrap.{unowned_leak}

abbrev no_wrappers : World
no_wrappers = record {
  next = 0;
  wrappers = λ w. record { obj = none; inst_dict = false; toggle = false; class = 0; refs = 0 };
  wrapper_of = λ o. none;
  inst_data = λ o. none;
  sink_funcs = [];
  class_refs = λ c. 0;
  calls = [];
}

abbrev plain_objects : Env
plain_objects = record {
  type_of = λ o. 4;
  is_a = λ t u. t == u;
  initially_unowned = λ o. false;
  floating = λ o. false;
  lookup_class = λ t. t + 100;
  is_heap_type = λ c. true;
}

-- Object 5 was created with a floating reference, which is gone.
abbrev unowned_objects : Env
unowned_objects = record plain_objects { initially_unowned = λ o. true }

abbrev wrapped : World
wrapped = (new_full plain_objects (some 5) none no_wrappers).1

abbrev ended : World
ended = py_decref 0 (get_dict 0 wrapped)

five-IsPlain : IsPlain plain_objects 5 no_wrappers
unfolding find_sinkfunc
five-IsPlain = record { owned = refl; sunk = refl; no_function = refl }

wrapped_history : Reach no_wrappers wrapped
wrapped_history = next here (wraps plain_objects 5 none five-IsPlain)

unowned_leak_example :
    let V = dealloc no_wrappers.next (new_full unowned_objects (some 5) none no_wrappers).1 in
    (taken 5 V.calls ≡ taken 5 no_wrappers.calls + 2)
    × (dropped 5 V.calls ≡ dropped 5 no_wrappers.calls + 1)
    × (V.wrapper_of 5 ≡ none)
unfolding find_sinkfunc
unowned_leak_example = unowned_leak 5 no_wrappers unowned_objects none refl refl refl refl
