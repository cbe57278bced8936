-- ===== src/Spawn.antt =====
-- glib.spawn_async and the setup function of the child, glib/pygspawn.c. What becomes of the memory and
-- of the references is part of the result.
pub mod Balanced
use debian_pygobject.Base.{
  ℕ, ◌+◌, ◌-◌, ◌≡◌, refl, Bool, true, false, not, Option, none, some, is_some, List, [], ◌∷◌, ◌==◌,
  if◌then◌else◌, update, CString, arith, Bool-cases, Option-cases, inl, inr, ==_refl,
}
use debian_pygobject.CInt.{ℤ}
use debian_pygobject.Errors.{GError, error_check}
use debian_pygobject.Errors

-- A sequence of strings: another object, or the items, of which those that are no strings are none.
pub data Strings : Type 0 where
  not_sequence : Strings
  items : List (Option CString) → Strings

-- The arguments: `func` is none for None.
pub record Args : Type 0 where
  pub argv : Strings
  pub envp : Option Strings
  pub working_directory : Option CString
  pub flags : ℤ
  pub func : Option ℕ
  pub user_data : Option ℕ
  pub wants_input : Bool
  pub wants_output : Bool
  pub wants_error : Bool

pub data SpawnError : Type 0 where
  bad_arguments bad_argv bad_envp not_callable : SpawnError

-- The child and the pipes that were asked for.
pub record Child : Type 0 where
  pub pid : ℤ
  pub standard_input : Option ℤ
  pub standard_output : Option ℤ
  pub standard_error : Option ℤ

-- What g_spawn_async_with_pipes is told, and what it answers: the error, or the child with the three
-- descriptors.
pub record Request : Type 0 where
  pub argv : List CString
  pub envp : Option (List CString)
  pub working_directory : Option CString
  pub flags : ℤ
  pub has_setup : Bool
  pub pipes : Bool × Bool × Bool

abbrev pub Reply : Type 0
Reply = Option GError × ℤ × ℤ × ℤ × ℤ

-- The references; the argument vectors that are allocated and not freed; and the callback data that are.
pub record Memory : Type 0 where
  pub refs : ℕ → ℕ
  pub vectors : ℕ
  pub callbacks : ℕ

-- The end: an exception of this code, one that was made of a GError, or the child.
pub data Outcome : Type 0 where
  refused : SpawnError → Outcome
  raised : Errors.World → Outcome
  spawned : Child → Outcome

pub record Spawned : Type 0 where
  pub outcome : Outcome
  pub memory : Memory

-- g_new0 of a vector, and g_free.
abbrev pub new_vector : Memory → Memory
new_vector m = record m { vectors = m.vectors + 1 }

abbrev pub free_vector : Memory → Memory
free_vector m = record m { vectors = m.vectors - 1 }

unfoldable pub incref : ℕ → (ℕ → ℕ) → ℕ → ℕ
incref v refs = update refs v (refs v + 1)

unfoldable pub decref : ℕ → (ℕ → ℕ) → ℕ → ℕ
decref v refs = update refs v (refs v - 1)

unfoldable pub xincref : Option ℕ → (ℕ → ℕ) → ℕ → ℕ
unfolding incref
xincref none refs = refs
xincref (some v) refs = incref v refs

unfoldable pub xdecref : Option ℕ → (ℕ → ℕ) → ℕ → ℕ
unfolding decref
xdecref none refs = refs
xdecref (some v) refs = decref v refs

-- The loop over a sequence of strings.
unfoldable pub read_strings : List (Option CString) → Option (List CString)
read_strings [] = some []
read_strings (none ∷ xs) = none
read_strings (some s ∷ xs) =
    let rest = read_strings xs in elim rest [ none ↦ none | some ss ↦ some (s ∷ ss) ]

-- The vector is freed if an item is no string.
unfoldable pub finish_vector : Option (List CString) → Memory → Option (List CString) × Memory
finish_vector none m = (none, free_vector m)
finish_vector (some ss) m = (some ss, m)

unfoldable pub read_sequence : Strings → Memory → Option (List CString) × Memory
unfolding read_strings finish_vector
read_sequence not_sequence m = (none, m)
read_sequence (items xs) m = finish_vector (read_strings xs) (new_vector m)

unfoldable pub as_environment :
    Option (List CString) × Memory → Option (Option (List CString)) × Memory
as_environment (none, m) = (none, m)
as_environment (some e, m) = (some (some e), m)

unfoldable pub read_environment : Option Strings → Memory → Option (Option (List CString)) × Memory
unfolding read_sequence as_environment
read_environment none m = (some none, m)
read_environment (some s) m = as_environment (read_sequence s m)

-- `g_free(argv); if (envp) g_free(envp);`
unfoldable pub free_vectors : Option (List CString) → Memory → Memory
free_vectors none m = free_vector m
free_vectors (some e) m = free_vector (free_vector m)

abbrev pub refuses : SpawnError → Memory → Spawned
refuses f m = record { outcome = refused f; memory = m }

-- The callback data of a function: it is allocated with the references that it holds, and freed.
unfoldable pub take_callback : Args → Memory → Memory
unfolding xincref
take_callback a m = elim a.func [
  | none ↦ m
  | some f ↦ record m { refs = xincref a.user_data (incref f m.refs); callbacks = m.callbacks + 1 }
]

unfoldable pub drop_callback : Args → Memory → Memory
unfolding xdecref
drop_callback a m = elim a.func [
  | none ↦ m
  | some f ↦ record m { refs = xdecref a.user_data (decref f m.refs); callbacks = m.callbacks - 1 }
]

abbrev pub pipe : Bool → ℤ → Option ℤ
pipe true fd = some fd
pipe false fd = none

-- From the call of GLib on; `spawn` is g_spawn_async_with_pipes.
unfoldable pub run_spawn :
    (ℕ → CString)
    → (Request → Reply)
    → Args
    → List CString
    → Option (List CString)
    → Memory
    → Errors.World
    → Spawned
unfolding take_callback drop_callback free_vectors error_check
run_spawn quark_to_string spawn a argv envp m w =
    let taken = take_callback a m in
    let (error, pid, i, o, e) = spawn (record {
      argv = argv;
      envp = envp;
      working_directory = a.working_directory;
      flags = a.flags;
      has_setup = is_some a.func;
      pipes = (a.wants_input, a.wants_output, a.wants_error);
    }) in
    elim error [
      | some g ↦ record {
        outcome = raised (error_check quark_to_string (some g) w).1.1;
        memory = drop_callback a (free_vectors envp taken);
      }
      | none ↦ record {
        outcome = spawned (record {
          pid = pid;
          standard_input = pipe a.wants_input i;
          standard_output = pipe a.wants_output o;
          standard_error = pipe a.wants_error e;
        });
        memory = free_vectors envp taken;
      }
    ]

-- The test of the function, which stands behind those of the two sequences.
unfoldable pub is_bad_func : (ℕ → Bool) → Option ℕ → Bool
is_bad_func callable none = false
is_bad_func callable (some f) = not (callable f)

module _ (quark_to_string : ℕ → CString) (spawn : Request → Reply) (callable : ℕ → Bool) where
  -- From the test of the function on.
  unfoldable pub with_environment :
      Args → List CString → Option (Option (List CString)) × Memory → Errors.World → Spawned
  unfolding is_bad_func free_vectors run_spawn
  with_environment a argv (none, m) w = refuses bad_envp (free_vector m)
  with_environment a argv (some envp, m) w =
      if is_bad_func callable a.func
      then refuses not_callable (free_vectors envp m)
      else run_spawn quark_to_string spawn a argv envp m w

  -- From the environment on.
  unfoldable pub with_argv : Args → Option (List CString) × Memory → Errors.World → Spawned
  unfolding read_environment with_environment
  with_argv a (none, m) w = refuses bad_argv m
  with_argv a (some argv, m) w = with_environment a argv (read_environment a.envp m) w

  -- The arguments are `none` if they do not parse. A sequence whose length cannot be asked is not
  -- modelled.
  unfoldable pub spawn_async : Option Args → Memory → Errors.World → Spawned
  unfolding read_sequence with_argv
  spawn_async none m w = refuses bad_arguments m
  spawn_async (some a) m w = with_argv a (read_sequence a.argv m) w

-- _pyg_spawn_async_callback, in the child: the arguments of the function, whether its exception was
-- printed, and the references.
pub record SetUp : Type 0 where
  pub called : List ℕ
  pub printed : Bool
  pub refs : ℕ → ℕ

-- `call` is whether the function raises.
unfoldable pub spawn_async_callback : (ℕ → List ℕ → Bool) → ℕ → Option ℕ → (ℕ → ℕ) → SetUp
unfolding xdecref
spawn_async_callback call f user_data refs =
    let args = elim user_data as (λ u. List ℕ) [ none ↦ [] | some u ↦ u ∷ [] ] in
    record { called = args; printed = call f args; refs = xdecref user_data (decref f refs) }
