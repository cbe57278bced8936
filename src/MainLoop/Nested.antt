-- ===== src/MainLoop/Nested.antt =====
-- Loops that run inside loops, to any depth.
use debian_pygobject.Base.{ℕ, ◌+◌, ◌≡◌, refl, ◌∙◌, true, some, arith, times}
use debian_pygobject.MainLoop.{
  World, Runs, idle, run, run_loops, save_current_main_loop, restore_current_main_loop, unref_prev,
  get_current_main_loop,
}

-- A world that differs from another in balanced references only, and perhaps in its key.
pub record Returns (w u : World) : Type 0 where
  pub value : u.value ≡ w.value
  pub created : w.created ≡ true → u.created ≡ true
  pub balance :
      (l : ℕ)
      → times l (u.reffed) + times l (w.unreffed) ≡ times l (w.reffed) + times l (u.unreffed)

one_run :
    (l : ℕ) (w u : World)
    → Returns (save_current_main_loop l w).1 u
    → Returns w (restore_current_main_loop (w.value) u)
unfolding save_current_main_loop restore_current_main_loop unref_prev
one_run l w u r =
    let made : u.created ≡ true = r.created refl in
    let ran : u.value ≡ some l = r.value in
    record {
      value = ground (arith, made);
      created = λ e. ground (arith, made, ran);
      balance = λ k. ground (arith, made, ran, r.balance k);
    }

Returns-trans : {w u v : World} → Returns w u → Returns u v → Returns w v
Returns-trans r s = record {
  value = s.value ∙ r.value;
  created = λ e. s.created (r.created e);
  balance = λ l. omega (arith, r.balance l, s.balance l);
}

run_loops-Returns : (r : Runs) (w : World) → Returns w (run_loops r w)
unfolding run_loops
run_loops-Returns idle w = record { value = refl; created = λ e. e; balance = λ l. omega arith }
run_loops-Returns (run l inside rest) w =
    Returns-trans
      (one_run l w (run_loops inside ((save_current_main_loop l w).1))
        (run_loops-Returns inside ((save_current_main_loop l w).1)))
      (run_loops-Returns rest _)

-- However the runs are nested: afterwards the loop that was current is current again, and every loop
-- was referenced as often as it was dropped; and inside the run of a loop, whatever ran there before,
-- that loop is the current one.
pub run_loops_lem :
    (r : Runs) (l : ℕ) (w : World)
    → Returns w (run_loops r w)
      × (get_current_main_loop (run_loops r ((save_current_main_loop l w).1)) ≡ some l)
unfolding get_current_main_loop save_current_main_loop
run_loops_lem r l w =
    let inside = run_loops-Returns r ((save_current_main_loop l w).1) in
    (run_loops-Returns r w, rw (inside.created refl) (inside.value))
