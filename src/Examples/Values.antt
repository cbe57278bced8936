-- ===== src/Examples/Values.antt =====
-- The theorems on boxed values at a wrapper that takes over a value and is copied, and those on main
-- loops at two that are nested.
use debian_pygobject.Base.{◌≡◌, refl, true, false, none, some, [], ◌∷◌}
use debian_pygobject.Boxed.{
  Boxed, World, Classes, boxed_new, boxed_copy, boxed_init, boxed_dealloc, find_boxed, free_boxed,
  wrap_boxed, place_boxed,
}
use debian_pygobject.Boxed.Owned.{
  IsBalanced, Reach, here, next, inits, takes_over, copies_wrapper, deallocates, Reach-owned,
}
use debian_pygobject.MainLoop.{idle, run, run_loops, save_current_main_loop, get_current_main_loop}
use debian_pygobject.MainLoop
use debian_pygobject.MainLoop.Nested.{Returns, run_loops_lem}

abbrev no_values : World
no_values = record { wrappers = []; next_wrapper = 0; next_value = 100; copied = []; freed = [] }

abbrev no_classes : Classes
no_classes = record { attached = λ t. none; imported = λ t. none; fallback = 1 }

abbrev one_owner : World
one_owner = (boxed_new no_classes 6 (some 5) false true no_values).1

abbrev one_left : World
one_left = boxed_dealloc 0 (boxed_init 0 (boxed_copy no_classes 0 one_owner).1)

one_left_history : Reach no_values (record { given = 5 ∷ []; lost = 5 ∷ [] }) one_left
unfolding find_boxed boxed_copy free_boxed boxed_new wrap_boxed place_boxed
one_left_history =
    next
      (next (next (next here (takes_over no_classes 6 5 refl)) (copies_wrapper no_classes 0))
        (inits 0))
      (deallocates 0)

Reach-owned_example : IsBalanced (record { given = 5 ∷ []; lost = 5 ∷ [] }) one_left
Reach-owned_example = Reach-owned refl refl refl one_left_history

abbrev owner : Boxed
owner = record { class = 1; boxed = some 5; gtype = 6; free_on_dealloc = true }

abbrev owned_once : World
owned_once = record no_values { wrappers = (0, owner) ∷ []; next_wrapper = 1 }

abbrev no_loops : MainLoop.World
no_loops = record { created = false; value = none; reffed = []; unreffed = [] }

run_loops_lem_example :
    Returns no_loops (run_loops (run 3 (run 4 idle idle) idle) no_loops)
    × (get_current_main_loop
          (run_loops (run 3 (run 4 idle idle) idle) ((save_current_main_loop 8 no_loops).1))
        ≡ some 8)
run_loops_lem_example = run_loops_lem (run 3 (run 4 idle idle) idle) 8 no_loops
