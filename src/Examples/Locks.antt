-- ===== src/Examples/Locks.antt =====
-- The theorems on threads at two functions that are registered before threads are enabled.
use debian_pygobject.Base.{◌≡◌, refl, false, some, [], ◌∷◌}
use debian_pygobject.Threads.{World, finish, enables, notifies, with_gil, run_ops}
use debian_pygobject.Threads.Enabled.{registered, run_ops_told}

abbrev unthreaded : World
unthreaded = record {
  threads_enabled = false;
  thread_enabling_callbacks = [];
  list_freed = false;
  dangling_read = false;
  called = [];
  gil_states = 0;
  extra_release = false;
}

run_ops_told_example :
    (run_ops
      (registered (4 ∷ (6 ∷ [])) (enables (with_gil (enables finish) (notifies (some 8) finish))))
      unthreaded).called
    ≡ 4 ∷ (6 ∷ [])
run_ops_told_example =
    (run_ops_told (4 ∷ (6 ∷ [])) (with_gil (enables finish) (notifies (some 8) finish)) unthreaded
      (record { off = refl; kept = refl; unread = refl })).0
