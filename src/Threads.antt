-- ===== src/Threads.antt =====
-- Threads in glib/pyglib.c, in the build with threads: enabling them, the functions that are told of
-- it, and the pairs that take and give back the GIL.
pub mod Enabled
use debian_pygobject.Base.{
  ℕ, ◌+◌, ◌||◌, ◌==◌, ◌-◌, Bool, true, false, Option, none, some, List, [], ◌∷◌, ◌++◌,
  if◌then◌else◌,
}

-- `thread_enabling_callbacks` is freed when threads are enabled, and not reset; `dangling_read` says
-- if it was read after that. `called` holds the functions that were told, in order; `gil_states` is
-- how often PyGILState_Ensure was called more than PyGILState_Release, where `extra_release` says if a
-- release came without one.
pub record World : Type 0 where
  pub threads_enabled : Bool
  pub thread_enabling_callbacks : List ℕ
  pub list_freed : Bool
  pub dangling_read : Bool
  pub called : List ℕ
  pub gil_states : ℕ
  pub extra_release : Bool

-- PyGILState_LOCKED, which pyglib_gil_state_ensure returns without threads, or what
-- PyGILState_Ensure gives.
pub data GilState : Type 0 where
  locked : GilState
  ensured : GilState

unfoldable pub gil_state_ensure : World → GilState × World
gil_state_ensure w =
    if w.threads_enabled then (ensured, record w { gil_states = w.gil_states + 1 }) else (locked, w)

-- pyglib_gil_state_release does not look at the state.
unfoldable pub release_one : ℕ → World → World
release_one n w =
    if n == 0 then record w { extra_release = true } else record w { gil_states = n - 1 }

unfoldable pub gil_state_release : GilState → World → World
unfolding release_one
gil_state_release state w = if w.threads_enabled then release_one (w.gil_states) w else w

unfoldable pub enable_threads : World → World
enable_threads w = if w.threads_enabled then w else record w {
  threads_enabled = true;
  called = w.called ++ w.thread_enabling_callbacks;
  dangling_read = w.dangling_read || w.list_freed;
  list_freed = true;
}

-- _pyglib_notify_on_enabling_threads, with a function or NULL.
unfoldable pub notify_on_enabling_threads : Option ℕ → World → World
notify_on_enabling_threads none w = w
notify_on_enabling_threads (some f) w = if w.threads_enabled then w else record w {
  thread_enabling_callbacks = w.thread_enabling_callbacks ++ (f ∷ []);
  dangling_read = w.dangling_read || w.list_freed;
}

-- What code does, one after the other; a pair of ensure and release has other operations inside.
pub data Ops : Type 0 where
  finish : Ops
  enables : Ops → Ops
  notifies : Option ℕ → Ops → Ops
  with_gil : Ops → Ops → Ops

unfoldable pub run_ops : Ops → World → World
unfolding gil_state_ensure gil_state_release enable_threads notify_on_enabling_threads
run_ops finish w = w
run_ops (enables rest) w = run_ops rest (enable_threads w)
run_ops (notifies f rest) w = run_ops rest (notify_on_enabling_threads f w)
run_ops (with_gil inside rest) w =
    let (state, held) = gil_state_ensure w in
    run_ops rest (gil_state_release state (run_ops inside held))
