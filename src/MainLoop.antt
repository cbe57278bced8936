-- ===== src/MainLoop.antt =====
-- The running main loops of a thread, glib/pygmainloop.c with threads: a loop that runs remembers the
-- one that ran before it. Loops are addresses.
pub mod Nested
use debian_pygobject.Base.{ℕ, Bool, true, false, Option, none, some, List, [], ◌∷◌, if◌then◌else◌}

-- The thread's key, if PyThread_create_key was called, with its value; and the loops on which
-- g_main_loop_ref and g_main_loop_unref were called.
pub record World : Type 0 where
  pub created : Bool
  pub value : Option ℕ
  pub reffed : List ℕ
  pub unreffed : List ℕ

-- pyg_save_current_main_loop. PyThread_set_key_value keeps a value that is there, so the old one is
-- deleted first.
unfoldable pub save_current_main_loop : ℕ → World → Option ℕ × World
save_current_main_loop main_loop w =
    (w.value, record w { created = true; value = some main_loop; reffed = main_loop ∷ w.reffed })

unfoldable pub unref_prev : Option ℕ → World → World
unref_prev none w = w
unref_prev (some prev) w = record w { unreffed = prev ∷ w.unreffed }

-- pyg_restore_current_main_loop
unfoldable pub restore_current_main_loop : Option ℕ → World → World
unfolding unref_prev
restore_current_main_loop main_loop w =
    if w.created then record (unref_prev (w.value) w) { value = main_loop } else w

-- pyg_get_current_main_loop
unfoldable pub get_current_main_loop : World → Option ℕ
get_current_main_loop w = if w.created then w.value else none

-- What a thread does: it runs a loop, whose callbacks do more of it, and then goes on.
pub data Runs : Type 0 where
  idle : Runs
  run : ℕ → Runs → Runs → Runs

-- _wrap_g_main_loop_run for each run.
unfoldable pub run_loops : Runs → World → World
unfolding save_current_main_loop restore_current_main_loop
run_loops idle w = w
run_loops (run main_loop inside rest) w =
    let (prev_loop, saved) = save_current_main_loop main_loop w in
    run_loops rest (restore_current_main_loop prev_loop (run_loops inside saved))
