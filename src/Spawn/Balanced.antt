-- ===== src/Spawn/Balanced.antt =====
-- What spawn_async of glib/pygspawn.c leaves of references and memory.
use debian_pygobject.Base.{
  ◌⊎◌, ap, ℕ, ◌+◌, ◌-◌, ◌≡◌, refl, Bool, true, false, ◌&&◌, Option, none, some, is_some, List, ◌==◌,
  if◌then◌else◌, CString, arith, Bool-cases, Option-cases, inl, inr,
}
use debian_pygobject.Errors.{GError, error_check}
use debian_pygobject.Errors
use debian_pygobject.Spawn.{
  Memory, new_vector, free_vector, free_vectors, finish_vector, not_sequence, items, read_strings,
  Strings, Args, SpawnError, Child, Request, Reply, Outcome, raised, spawned, Spawned, incref,
  decref, xincref, xdecref, read_sequence, read_environment, refuses, pipe, take_callback,
  drop_callback, run_spawn, is_bad_func, spawn_async, bad_argv, bad_envp, not_callable,
  as_environment, with_environment, with_argv,
}

-- Whether the outcome is a child.
abbrev pub is_spawned : Outcome → Bool
is_spawned (spawned c) = true
is_spawned o = false

xdecref-xincref :
    (f : ℕ) (u : Option ℕ) (refs : ℕ → ℕ) (v : ℕ)
    → xdecref u (decref f (xincref u (incref f refs))) v ≡ refs v
unfolding xdecref xincref decref incref
xdecref-xincref f none refs v = ground arith
xdecref-xincref f (some u) refs v = ground arith

-- What the callback data hold of an object.
abbrev pub callback_holds : Args → ℕ → ℕ
callback_holds a v = elim a.func [
  | none ↦ 0
  | some f ↦
      (if f == v then 1 else 0) + elim a.user_data [ none ↦ 0 | some u ↦ if u == v then 1 else 0 ]
]

-- What is left, from the memory before: the vectors are freed; and with a child, the callback data of a
-- function are there, with their references.
pub record IsBalanced (a : Args) (m : Memory) (r : Spawned) : Type 0 where
  pub vectors : r.memory.vectors ≡ m.vectors
  pub callbacks :
      r.memory.callbacks ≡ m.callbacks + (if is_spawned r.outcome && is_some a.func then 1 else 0)
  pub references :
      (v : ℕ)
      → r.memory.refs v ≡ m.refs v + (if is_spawned r.outcome then callback_holds a v else 0)

-- With a vector for argv, and one for envp if that was given.
abbrev pub with_vectors : Option (List CString) → Memory → Memory
with_vectors none m = new_vector m
with_vectors (some e) m = new_vector (new_vector m)

xincref_lem :
    (f : ℕ) (u : Option ℕ) (refs : ℕ → ℕ) (v : ℕ)
    → xincref u (incref f refs) v
      ≡ refs v
        + ((if f == v then 1 else 0) + elim u [ none ↦ 0 | some x ↦ if x == v then 1 else 0 ])
unfolding xincref incref
xincref_lem f none refs v = ground arith
xincref_lem f (some u) refs v = ground arith

freed : (envp : Option (List CString)) (m : Memory) → free_vectors envp (with_vectors envp m) ≡ m
unfolding free_vectors
freed none m = ap (λ n. record m { vectors = n }) (omega arith)
freed (some e) m = ap (λ n. record m { vectors = n }) (omega arith)

sequence-cases :
    (s : Strings) (m : Memory)
    → (read_sequence s m ≡ (none, m))
      ⊎ ((ss : List CString) × (read_sequence s m ≡ (some ss, new_vector m)))
unfolding read_sequence finish_vector
sequence-cases not_sequence m = inl refl
sequence-cases (items xs) m = elim (Option-cases (read_strings xs)) [
  | inl bad ↦
      inl (rw (bad, finish_vector) (ap (λ n. (none, record m { vectors = n })) (omega arith)))
  | inr (ss, good) ↦ inr (ss, rw (good, finish_vector) refl)
]

environment-cases :
    (s : Option Strings) (m : Memory)
    → (read_environment s (new_vector m) ≡ (none, new_vector m))
      ⊎ ((e : Option (List CString)) × (read_environment s (new_vector m)
            ≡ (some e, with_vectors e m)))
unfolding read_environment as_environment
environment-cases none m = inr (none, refl)
environment-cases (some s) m = elim (sequence-cases s (new_vector m)) [
  | inl bad ↦ inl (rw (read_environment, bad) refl)
  | inr (e, good) ↦ inr (some e, rw (read_environment, good) refl)
]

xdecref_lem :
    (f : ℕ) (u : Option ℕ) (refs : ℕ → ℕ) (v : ℕ)
    → xdecref u (decref f refs) v
      ≡ refs v
        - ((if f == v then 1 else 0) + elim u [ none ↦ 0 | some x ↦ if x == v then 1 else 0 ])
unfolding xdecref decref
xdecref_lem f none refs v = ground arith
xdecref_lem f (some u) refs v = ground arith

take_lem :
    (a : Args) (m : Memory) (v : ℕ)
    → ((take_callback a m).vectors ≡ m.vectors)
      × ((take_callback a m).callbacks ≡ m.callbacks + (if is_some a.func then 1 else 0))
      × ((take_callback a m).refs v ≡ m.refs v + callback_holds a v)
unfolding take_callback
take_lem a m v = elim (Option-cases a.func) [
  | inl e ↦ rw (e, take_callback, callback_holds) (refl, omega arith, omega arith)
  | inr (f, e) ↦
      rw (e, take_callback, callback_holds) (refl, refl, xincref_lem f a.user_data m.refs v)
]

drop_lem :
    (a : Args) (m : Memory) (v : ℕ)
    → ((drop_callback a m).vectors ≡ m.vectors)
      × ((drop_callback a m).callbacks ≡ m.callbacks - (if is_some a.func then 1 else 0))
      × ((drop_callback a m).refs v ≡ m.refs v - callback_holds a v)
unfolding drop_callback
drop_lem a m v = elim (Option-cases a.func) [
  | inl e ↦ rw (e, drop_callback, callback_holds) (refl, omega arith, omega arith)
  | inr (f, e) ↦
      rw (e, drop_callback, callback_holds) (refl, refl, xdecref_lem f a.user_data m.refs v)
]

-- Freeing the vectors undoes their allocation, whatever else has changed.
free_lem :
    (envp : Option (List CString)) (m n : Memory)
    → n.vectors ≡ (with_vectors envp m).vectors
    → ((free_vectors envp n).vectors ≡ m.vectors)
      × ((free_vectors envp n).callbacks ≡ n.callbacks)
      × ((v : ℕ) → (free_vectors envp n).refs v ≡ n.refs v)
unfolding free_vectors
free_lem none m n h = (omega (arith, h), refl, λ v. refl)
free_lem (some e) m n h = (omega (arith, h), refl, λ v. refl)

with_lem :
    (envp : Option (List CString)) (m : Memory)
    → ((with_vectors envp m).callbacks ≡ m.callbacks)
      × ((v : ℕ) → (with_vectors envp m).refs v ≡ m.refs v)
with_lem none m = (refl, λ v. refl)
with_lem (some e) m = (refl, λ v. refl)

module _ (a : Args) (m : Memory) where
  refuses-IsBalanced : (f : SpawnError) → IsBalanced a m (refuses f m)
  refuses-IsBalanced f = record {
    vectors = refl;
    callbacks = omega arith;
    references = λ v. omega arith;
  }

  one_freed : free_vector (new_vector m) ≡ m
  one_freed = ap (λ n. record m { vectors = n }) (omega arith)

  with_child :
      (envp : Option (List CString)) (c : Child)
      → IsBalanced a m (record {
        outcome = spawned c;
        memory = free_vectors envp (take_callback a (with_vectors envp m));
      })
  with_child envp c =
      let t = λ (v : ℕ). take_lem a (with_vectors envp m) v in
      let (vectors, callbacks, refs) =
        free_lem envp m (take_callback a (with_vectors envp m)) (t 0).0 in
      record {
        vectors = vectors;
        callbacks = omega (arith, callbacks, (t 0).1, (with_lem envp m).0);
        references = λ v. omega (arith, refs v, (t v).2, (with_lem envp m).1 v);
      }

  without_child :
      (envp : Option (List CString)) (u : Errors.World)
      → IsBalanced a m (record {
        outcome = raised u;
        memory = drop_callback a (free_vectors envp (take_callback a (with_vectors envp m)));
      })
  without_child envp u =
      let t = λ (v : ℕ). take_lem a (with_vectors envp m) v in
      let d = λ (v : ℕ). drop_lem a (free_vectors envp (take_callback a (with_vectors envp m))) v in
      let (vectors, callbacks, refs) =
        free_lem envp m (take_callback a (with_vectors envp m)) (t 0).0 in
      record {
        vectors = omega (arith, (d 0).0, vectors);
        callbacks = omega (arith, (d 0).1, callbacks, (t 0).1, (with_lem envp m).0);
        references = λ v. omega (arith, (d v).2, refs v, (t v).2, (with_lem envp m).1 v);
      }

  module _ (quark_to_string : ℕ → CString) (spawn : Request → Reply) (callable : ℕ → Bool)
      (w : Errors.World) where
    replied-IsBalanced :
        (envp : Option (List CString)) (r : Reply)
        → IsBalanced a m (elim r.0 [
          | some g ↦ record {
            outcome = raised (error_check quark_to_string (some g) w).1.1;
            memory = drop_callback a (free_vectors envp (take_callback a (with_vectors envp m)));
          }
          | none ↦ record {
            outcome = spawned (record {
              pid = r.1;
              standard_input = pipe a.wants_input r.2;
              standard_output = pipe a.wants_output r.3;
              standard_error = pipe a.wants_error r.4;
            });
            memory = free_vectors envp (take_callback a (with_vectors envp m));
          }
        ])
    replied-IsBalanced envp (none, p, i, o, e) = with_child envp _
    replied-IsBalanced envp (some g, p, i, o, e) = without_child envp _

    run_spawn-IsBalanced :
        (argv : List CString) (envp : Option (List CString))
        → IsBalanced a m (run_spawn quark_to_string spawn a argv envp (with_vectors envp m) w)
    unfolding run_spawn
    run_spawn-IsBalanced argv envp = replied-IsBalanced envp (spawn _)

    -- However spawn_async ends, each argument vector that it has allocated is freed. If no child is made,
    -- the references are as before and no callback data are left; and if one is made, the callback data
    -- of a setup function stay allocated in the parent, with a reference to the function and one to its
    -- data.
    pub spawn_async-IsBalanced :
        IsBalanced a m (spawn_async quark_to_string spawn callable (some a) m w)
    unfolding spawn_async with_argv with_environment
    spawn_async-IsBalanced = elim (sequence-cases a.argv m) [
      | inl bad ↦ rw (spawn_async, bad) (refuses-IsBalanced bad_argv)
      | inr (argv, p) ↦ elim (environment-cases a.envp m) [
        | inl bad ↦ rw (spawn_async, p, bad, one_freed) (refuses-IsBalanced bad_envp)
        | inr (envp, q) ↦ elim (Bool-cases (is_bad_func callable a.func)) [
          | inl bad ↦ rw (spawn_async, p, q, bad, freed envp m) (refuses-IsBalanced not_callable)
          | inr good ↦ rw (spawn_async, p, q, good) (run_spawn-IsBalanced argv envp)
        ]
      ]
    ]
