-- ===== src/Sources.antt =====
-- glib/pygsource.c: the objects that wrap a GSource. The calls to GLib about the source are logged,
-- newest first; what GLib answers depends on them. PyGRealSource.obj is the wrapper itself.
pub mod Funcs
pub mod History
use debian_pygobject.Base.{
  ℕ, ◌+◌, ◌-◌, Bool, true, false, not, ◌&&◌, Option, none, some, is_some, List, [], ◌∷◌, ◌==◌,
  if◌then◌else◌,
}
use debian_pygobject.CInt.{ℤ, pos, zeq, to_int}

-- The tuple that a callback is registered with: the function and the tuple of its arguments.
pub record Handler : Type 0 where
  pub callback : ℕ
  pub cbargs : List ℕ

-- What is asked of GLib about the source: g_source_new and its kin; g_source_attach to a context or the
-- default one, and g_source_destroy, with whether the source is implemented in Python;
-- g_source_unref, and the functions that change the source.
pub data Call : Type 0 where
  creates : Call
  attaches : Bool → Option ℕ → Call
  destroys : Bool → Call
  unrefs : Call
  sets_callback : Handler → Call
  sets_priority : ℤ → Call
  sets_can_recurse : Bool → Call
  adds_poll removes_poll : ℕ → Call

-- PyGSource, with the number of references to it, and the calls.
pub record Source : Type 0 where
  pub source : Option ℕ
  pub inst_dict : Bool
  pub python_source : Bool
  pub refs : ℕ
  pub calls : List Call

-- The context of the source, the id that g_source_attach returns next, the priority, whether the
-- source can recurse, its id and the time; and whether Python can call an object.
pub record Env : Type 0 where
  pub context : List Call → Option ℕ
  pub attach_id : List Call → ℕ
  pub priority : List Call → ℤ
  pub can_recurse : List Call → Bool
  pub source_id : List Call → ℕ
  pub current_time : ℕ
  pub callable : ℕ → Bool

pub data SourceError : Type 0 where
  is_destroyed too_few_arguments bad_argument not_callable not_python : SourceError
  cannot_delete type_mismatch not_attached : SourceError

pub data Result {ℓ} (A : Type ℓ) : Type ℓ where
  ok : A → Result A
  err : SourceError → Result A

unfoldable pub log : Call → Source → Source
log c x = record x { calls = c ∷ x.calls }

-- CHECK_DESTROYED, before a call that changes the source.
unfoldable pub checked : Call → Source → Result (Source)
unfolding log
checked c x = elim x.source [ none ↦ err is_destroyed | some s ↦ ok (log c x) ]

-- CHECK_DESTROYED, before a question.
unfoldable pub asked {ℓ} : {A : Type ℓ} → A → Source → Result A
asked a x = elim x.source [ none ↦ err is_destroyed | some s ↦ ok a ]

-- Py_INCREF of `pysource->obj`, in a source that is implemented in Python.
unfoldable pub hold : Source → Source
hold x = if x.python_source then record x { refs = x.refs + 1 } else x

-- `context` is none if there is no argument, and some none if it is not a MainContext.
unfoldable pub attach : Env → Option (Option ℕ) → Source → Result (ℕ × Source)
unfolding hold log
attach e (some none) x = err bad_argument
attach e none x = elim x.source [
  | none ↦ err is_destroyed
  | some s ↦ ok (e.attach_id x.calls, log (attaches x.python_source none) (hold x))
]
attach e (some (some c)) x = elim x.source [
  | none ↦ err is_destroyed
  | some s ↦ ok (e.attach_id x.calls, log (attaches x.python_source (some c)) (hold x))
]

-- The reference that attach took, if the source has a context.
unfoldable pub let_go : Env → Source → Source
let_go e x =
    if x.python_source && is_some (e.context x.calls) then record x { refs = x.refs - 1 } else x

unfoldable pub destroy : Env → Source → Result Source
unfolding let_go log
destroy e x = elim x.source [
  | none ↦ err is_destroyed
  | some s ↦ ok (record (log (destroys x.python_source) (let_go e x)) { source = none })
]

unfoldable pub set_callback : Env → List ℕ → Source → Result Source
unfolding checked
set_callback e args x = elim x.source [
  | none ↦ err is_destroyed
  | some s ↦ elim args [
    | [] ↦ err too_few_arguments
    | f ∷ rest ↦
        if not (e.callable f)
        then err not_callable
        else checked (sets_callback (record { callback = f; cbargs = rest })) x
  ]
]

unfoldable pub get_context : Env → Source → Result (Option ℕ)
unfolding asked
get_context e x = asked (e.context x.calls) x

-- `fd` is the PollFD, if the argument is one.
unfoldable pub poll_call : (ℕ → Call) → Option ℕ → Source → Result Source
unfolding checked
poll_call make fd x =
    if not x.python_source
    then err not_python
    else elim fd [ none ↦ err bad_argument | some p ↦ checked (make p) x ]

unfoldable pub add_poll : Option ℕ → Source → Result Source
unfolding poll_call
add_poll fd x = poll_call adds_poll fd x

unfoldable pub remove_poll : Option ℕ → Source → Result Source
unfolding poll_call
remove_poll fd x = poll_call removes_poll fd x

unfoldable pub get_current_time : Env → Source → Result ℕ
unfolding asked
get_current_time e x = asked e.current_time x

unfoldable pub get_dict : Source → Source
get_dict x = if x.inst_dict then x else record x { inst_dict = true }

unfoldable pub get_priority : Env → Source → Result ℤ
unfolding asked
get_priority e x = asked (e.priority x.calls) x

-- `value` is none for `del`; the number in it is none if it is no int. It is cut to a gint.
unfoldable pub set_priority : Option (Option ℤ) → Source → Result Source
unfolding checked
set_priority value x = elim x.source [
  | none ↦ err is_destroyed
  | some s ↦ elim value [
    | none ↦ err cannot_delete
    | some none ↦ err type_mismatch
    | some (some n) ↦ checked (sets_priority (to_int n)) x
  ]
]

unfoldable pub get_can_recurse : Env → Source → Result Bool
unfolding asked
get_can_recurse e x = asked (e.can_recurse x.calls) x

-- The truth of the value, which is true also for -1.
unfoldable pub set_can_recurse : Option (Option Bool) → Source → Result Source
unfolding checked
set_can_recurse value x = elim x.source [
  | none ↦ err is_destroyed
  | some s ↦ elim value [
    | none ↦ err cannot_delete
    | some none ↦ checked (sets_can_recurse true) x
    | some (some b) ↦ checked (sets_can_recurse b) x
  ]
]

unfoldable pub get_id : Env → Source → Result ℕ
get_id e x = elim x.source [
  | none ↦ err is_destroyed
  | some s ↦ elim (e.context x.calls) [
    | none ↦ err not_attached
    | some c ↦ ok (e.source_id x.calls)
  ]
]

unfoldable pub clear : Source → Source
unfolding log
clear x =
    let bare = record x { inst_dict = false } in
    elim x.source [ none ↦ bare | some s ↦ record (log unrefs bare) { source = none } ]

-- The last g_source_unref makes GLib call pyg_source_finalize, which calls the method `finalize` of the
-- wrapper that ends; what that method does is not modelled.
unfoldable pub dealloc : Source → Source
unfolding clear
dealloc x = record (clear x) { refs = 0 }

-- Py_DECREF
unfoldable pub decref : Source → Source
unfolding dealloc
decref x = if x.refs == 1 then dealloc x else record x { refs = x.refs - 1 }

-- __init__, with g_source_new, g_idle_source_new or g_timeout_source_new at an address; the latter two
-- set a priority that is not the default. What the wrapper had is overwritten, also by a second call.
unfoldable pub init : ℕ → Source → Source
unfolding log
init s x = record (log creates x) { source = some s; inst_dict = false; python_source = true }

unfoldable pub init_native : ℤ → ℕ → ℤ → Source → Source
unfolding log
init_native default s priority x =
    let made : Source = record (log creates x) {
      source = some s;
      inst_dict = false;
      python_source = false;
    } in
    if zeq priority default then made else log (sets_priority priority) made

-- A new object before __init__.
abbrev pub blank : Source
blank = record { source = none; inst_dict = false; python_source = false; refs = 1; calls = [] }

-- G_PRIORITY_DEFAULT_IDLE and G_PRIORITY_DEFAULT
abbrev pub default_idle : ℤ
default_idle = pos 200

abbrev pub default_priority : ℤ
default_priority = pos 0

unfoldable pub idle_init : ℕ → Option ℤ → Source → Source
unfolding init_native
idle_init s none x = init_native default_idle s default_idle x
idle_init s (some p) x = init_native default_idle s p x

unfoldable pub timeout_init : ℕ → Option ℤ → Source → Source
unfolding init_native
timeout_init s none x = init_native default_priority s default_priority x
timeout_init s (some p) x = init_native default_priority s p x
