-- ===== src/Threads/Enabled.antt =====
-- Who is told that threads are enabled, and the balance of the GIL.
use debian_pygobject.Base.{
  ℕ, ◌≡◌, refl, ◌∙◌, ◌||◌, ap, true, false, Option, none, some, List, [], ◌∷◌, ◌++◌, if◌then◌else◌,
  arith,
}
use mathlib.Core.List.{append_assoc, append-nil}
use debian_pygobject.Threads.{
  World, gil_state_ensure, gil_state_release, release_one, enable_threads,
  notify_on_enabling_threads, Ops, finish, enables, notifies, with_gil, run_ops,
}

-- Threads are enabled, and what was told and read is as it was.
pub record IsSettled (w u : World) : Type 0 where
  pub stays : u.threads_enabled ≡ true
  pub told : u.called ≡ w.called
  pub read : u.dangling_read ≡ w.dangling_read
  pub held : u.gil_states ≡ w.gil_states
  pub extra : u.extra_release ≡ w.extra_release

IsSettled-trans : {w u v : World} → IsSettled w u → IsSettled u v → IsSettled w v
IsSettled-trans a b = record {
  stays = b.stays;
  told = b.told ∙ a.told;
  read = b.read ∙ a.read;
  held = b.held ∙ a.held;
  extra = b.extra ∙ a.extra;
}

enable_threads-IsSettled : (w : World) → w.threads_enabled ≡ true → IsSettled w (enable_threads w)
unfolding enable_threads
enable_threads-IsSettled w on = record {
  stays = ground (arith, on);
  told = ground (arith, on);
  read = ground (arith, on);
  held = ground (arith, on);
  extra = ground (arith, on);
}

notify_on_enabling_threads-IsSettled :
    (f : Option ℕ) (w : World)
    → w.threads_enabled ≡ true
    → IsSettled w (notify_on_enabling_threads f w)
unfolding notify_on_enabling_threads
notify_on_enabling_threads-IsSettled none w on = record {
  stays = on;
  told = refl;
  read = refl;
  held = refl;
  extra = refl;
}
notify_on_enabling_threads-IsSettled (some f) w on = record {
  stays = ground (arith, on);
  told = ground (arith, on);
  read = ground (arith, on);
  held = ground (arith, on);
  extra = ground (arith, on);
}

-- A pair around what leaves the balance as it was.
gil_state_release-IsSettled :
    (w u : World)
    → w.threads_enabled ≡ true
    → IsSettled ((gil_state_ensure w).1) u
    → IsSettled w (gil_state_release ((gil_state_ensure w).0) u)
unfolding gil_state_ensure gil_state_release release_one
gil_state_release-IsSettled w u on s = record {
  stays = ground (arith, on, s.stays, s.held);
  told = ground (arith, on, s.stays, s.told, s.held);
  read = ground (arith, on, s.stays, s.read, s.held);
  held = ground (arith, on, s.stays, s.held);
  extra = ground (arith, on, s.stays, s.extra, s.held);
}

ensure_keeps_threads :
    (w : World) → w.threads_enabled ≡ true → (gil_state_ensure w).1.threads_enabled ≡ true
unfolding gil_state_ensure
ensure_keeps_threads w on = ground (arith, on)

run_ops-IsSettled : (ops : Ops) (w : World) → w.threads_enabled ≡ true → IsSettled w (run_ops ops w)
unfolding run_ops
run_ops-IsSettled finish w on = record {
  stays = on;
  told = refl;
  read = refl;
  held = refl;
  extra = refl;
}
run_ops-IsSettled (enables rest) w on =
    let s = enable_threads-IsSettled w on in IsSettled-trans s (run_ops-IsSettled rest _ (s.stays))
run_ops-IsSettled (notifies f rest) w on =
    let s = notify_on_enabling_threads-IsSettled f w on in
    IsSettled-trans s (run_ops-IsSettled rest _ (s.stays))
run_ops-IsSettled (with_gil inside rest) w on =
    let body = run_ops-IsSettled inside ((gil_state_ensure w).1) (ensure_keeps_threads w on) in
    let s = gil_state_release-IsSettled w (run_ops inside ((gil_state_ensure w).1)) on body in
    IsSettled-trans s (run_ops-IsSettled rest _ (s.stays))

-- The functions are registered, and then the rest is done.
abbrev pub registered : List ℕ → Ops → Ops
registered [] rest = rest
registered (f ∷ fs) rest = notifies (some f) (registered fs rest)

-- Threads were not enabled, and the list was not freed.
pub record IsUnthreaded (w : World) : Type 0 where
  pub off : w.threads_enabled ≡ false
  pub kept : w.list_freed ≡ false
  pub unread : w.dangling_read ≡ false

-- The functions that are registered before threads are enabled are told once, in the order of their
-- registration, and no function is told later, whatever is done then, more registrations and calls of
-- pyglib_enable_threads included; the freed list is never read; and when nothing but registrations comes
-- before threads are enabled, so that no pair takes the GIL before and gives it back after, the GIL is
-- given back as often as it is taken.
pub run_ops_told :
    (fs : List ℕ) (more : Ops) (w : World)
    → IsUnthreaded w
    → (let u = run_ops (registered fs (enables more)) w in
        (u.called ≡ w.called ++ (w.thread_enabling_callbacks ++ fs))
        × (u.dangling_read ≡ false)
        × (u.gil_states ≡ w.gil_states)
        × (u.extra_release ≡ w.extra_release))
unfolding run_ops notify_on_enabling_threads enable_threads
run_ops_told [] more w o =
    let on : (enable_threads w).threads_enabled ≡ true = rw (o.off, enable_threads) refl in
    let s = run_ops-IsSettled more (enable_threads w) on in
    (
      s.told ∙ rw (o.off, enable_threads, append-nil (w.thread_enabling_callbacks)) refl,
      s.read ∙ rw (o.off, enable_threads, o.unread, o.kept) refl,
      s.held ∙ rw (o.off, enable_threads) refl,
      s.extra ∙ rw (o.off, enable_threads) refl,
    )
run_ops_told (f ∷ fs) more w o =
    let w' = record w {
      thread_enabling_callbacks = w.thread_enabling_callbacks ++ (f ∷ []);
      dangling_read = w.dangling_read || w.list_freed;
    } in
    let o' : IsUnthreaded w' = record {
      off = o.off;
      kept = o.kept;
      unread = rw (o.unread, o.kept) refl;
    } in
    let (told, read, held, extra) = run_ops_told fs more w' o' in
    let step : notify_on_enabling_threads (some f) w ≡ w' = ap (λ b. if b then w else w') (o.off) in
    let done = λ (x : World). run_ops (registered fs (enables more)) x in
    (
      ap (λ x. (done x).called) step
          ∙ told
          ∙ ap (λ x. w.called ++ x) (append_assoc (w.thread_enabling_callbacks) (f ∷ []) fs),
      ap (λ x. (done x).dangling_read) step ∙ read,
      ap (λ x. (done x).gil_states) step ∙ held,
      ap (λ x. (done x).extra_release) step ∙ extra,
    )

-- If threads are enabled between pyglib_gil_state_ensure and pyglib_gil_state_release, the second
-- releases a GIL state that the first has not taken.
pub gil_state_unbalanced :
    (w : World)
    → w.threads_enabled ≡ false
    → w.gil_states ≡ 0
    → (run_ops (with_gil (enables finish) finish) w).extra_release ≡ true
unfolding run_ops gil_state_ensure gil_state_release enable_threads release_one
gil_state_unbalanced w off none_held = ground (arith, off, none_held)
