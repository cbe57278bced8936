-- ===== src/Watches.antt =====
-- Functions that GLib's main loop calls: idle_add, timeout_add, io_add_watch and child_watch_add of
-- glib/glibmodule.c, add_watch of glib/pygiochannel.c, and what is called then, with the marshaller of
-- glib/pyglib.c. Objects are addresses, and `refs` counts the references to each.
pub mod Run
pub mod Added
pub mod History
use debian_pygobject.Base.{
  ℕ, ◌+◌, ◌-◌, Bool, true, false, not, Option, none, some, List, [], ◌∷◌, ◌++◌, if◌then◌else◌,
  update, map, CString, codes, bytes_eq,
}
use debian_pygobject.CInt.{ℤ, pos, to_int, word32}
use debian_pygobject.Sources.{default_idle, default_priority}

-- An argument: the object, what PyArg_ParseTuple makes of it for `i` and for `I`, and what
-- PyObject_AsFileDescriptor does; none is an exception.
pub record Arg : Type 0 where
  pub address : ℕ
  pub as_int : Option ℤ
  pub as_unsigned : Option ℤ
  pub file_descriptor : Option ℕ

-- The data of a watch: the tuple of a function and its arguments; the same with the file object
-- between them; struct _PyGChildData; and PyGIOWatchData.
pub data Watch : Type 0 where
  handler : ℕ → List ℕ → Watch
  fd_watch : ℕ → ℕ → List ℕ → Watch
  child : ℕ → Option ℕ → Watch
  channel : ℕ → Option ℕ → ℕ → Watch

-- The call by which GLib is given a watch: with the priority, and the interval, the file descriptor
-- with the condition, the process, or the condition.
pub data Event : Type 0 where
  idle : ℤ → Event
  timeout timeout_seconds : ℤ → ℕ → Event
  fd_ready : ℤ → ℕ → ℤ → Event
  child_exits : ℤ → ℤ → Event
  channel_ready : ℤ → ℤ → Event

-- The references, and the watches that GLib has, with their ids; the newest first.
pub record World : Type 0 where
  pub refs : ℕ → ℕ
  pub installed : List (ℕ × Event × Watch)

pub data WatchError : Type 0 where
  too_few_arguments bad_argument not_callable bad_fd : WatchError
  many_keywords keyword_not_string not_priority bad_priority : WatchError

pub data Result {ℓ} (A : Type ℓ) : Type ℓ where
  ok : A → Result A
  err : WatchError → Result A

-- Whether Python can call an object, and the id of the next watch.
pub record Env : Type 0 where
  pub callable : ℕ → Bool
  pub next_id : List (ℕ × Event × Watch) → ℕ

unfoldable pub incref : ℕ → (ℕ → ℕ) → ℕ → ℕ
incref v refs = update refs v (refs v + 1)

unfoldable pub decref : ℕ → (ℕ → ℕ) → ℕ → ℕ
decref v refs = update refs v (refs v - 1)

unfoldable pub incref_all : List ℕ → (ℕ → ℕ) → ℕ → ℕ
unfolding incref
incref_all [] refs = refs
incref_all (v ∷ vs) refs = incref_all vs (incref v refs)

unfoldable pub decref_all : List ℕ → (ℕ → ℕ) → ℕ → ℕ
unfolding decref
decref_all [] refs = refs
decref_all (v ∷ vs) refs = decref_all vs (decref v refs)

-- A keyword: its name, if that is a string, and the int, if it is one.
abbrev pub Keyword : Type 0
Keyword = Option CString × Option ℤ

-- `kwargs` may be a null pointer; `default` is what *priority is before.
unfoldable pub get_handler_priority : ℤ → Option (List Keyword) → Result ℤ
get_handler_priority default none = ok default
get_handler_priority default (some []) = ok default
get_handler_priority default (some (k ∷ l ∷ ks)) = err many_keywords
get_handler_priority default (some ((none, val) ∷ [])) = err keyword_not_string
get_handler_priority default (some ((some key, val) ∷ [])) =
    if not (bytes_eq key (codes "priority"))
    then err not_priority
    else elim val [ none ↦ err bad_priority | some n ↦ ok (to_int n) ]

-- GLib takes the watch, whose id is returned; `held` are the objects that the data refers to.
unfoldable pub install : Env → Event → List ℕ → Watch → World → Result (ℕ × World)
unfolding incref_all
install e event held watch w =
    let id = e.next_id w.installed in
    ok (id, record { refs = incref_all held w.refs; installed = (id, event, watch) ∷ w.installed })

unfoldable pub addresses : List Arg → List ℕ
addresses args = map (λ a. a.address) args

-- The functions with a function and its arguments, from the test of the function on.
unfoldable pub add_handler :
    Env → (ℤ → Event) → ℤ → Option (List Keyword) → Arg → List Arg → World → Result (ℕ × World)
unfolding get_handler_priority install addresses
add_handler e event default kwargs f cbargs w =
    if not (e.callable f.address)
    then err not_callable
    else elim (get_handler_priority default kwargs) [
      | err x ↦ err x
      | ok priority ↦
          install e (event priority) (f.address ∷ addresses cbargs)
            (handler f.address (addresses cbargs)) w
    ]

unfoldable pub idle_add : Env → List Arg → Option (List Keyword) → World → Result (ℕ × World)
unfolding add_handler
idle_add e [] kwargs w = err too_few_arguments
idle_add e (f ∷ cbargs) kwargs w = add_handler e idle default_idle kwargs f cbargs w

-- The interval is an unsigned int, without a test for overflow.
unfoldable pub add_timeout :
    (ℤ → ℕ → Event) → Env → List Arg → Option (List Keyword) → World → Result (ℕ × World)
unfolding add_handler
add_timeout event e (interval ∷ f ∷ cbargs) kwargs w = elim interval.as_unsigned [
  | none ↦ err bad_argument
  | some n ↦ add_handler e (λ p. event p (word32 n)) default_priority kwargs f cbargs w
]
add_timeout event e args kwargs w = err too_few_arguments

unfoldable pub timeout_add : Env → List Arg → Option (List Keyword) → World → Result (ℕ × World)
unfolding add_timeout
timeout_add e args kwargs w = add_timeout timeout e args kwargs w

unfoldable pub timeout_add_seconds :
    Env → List Arg → Option (List Keyword) → World → Result (ℕ × World)
unfolding add_timeout
timeout_add_seconds e args kwargs w = add_timeout timeout_seconds e args kwargs w

-- io_add_watch, once the condition is parsed.
unfoldable pub add_fd_watch :
    Env → Arg → ℤ → Arg → List Arg → Option (List Keyword) → World → Result (ℕ × World)
unfolding get_handler_priority install addresses
add_fd_watch e pyfd condition f cbargs kwargs w = elim pyfd.file_descriptor [
  | none ↦ err bad_fd
  | some fd ↦
      if not (e.callable f.address)
      then err not_callable
      else elim (get_handler_priority default_priority kwargs) [
        | err x ↦ err x
        | ok priority ↦
            install e (fd_ready priority fd condition) (f.address ∷ pyfd.address ∷ addresses cbargs)
              (fd_watch f.address pyfd.address (addresses cbargs)) w
      ]
]

unfoldable pub io_add_watch : Env → List Arg → Option (List Keyword) → World → Result (ℕ × World)
unfolding add_fd_watch
io_add_watch e (pyfd ∷ condition ∷ f ∷ cbargs) kwargs w = elim condition.as_int [
  | none ↦ err bad_argument
  | some c ↦ add_fd_watch e pyfd c f cbargs kwargs w
]
io_add_watch e args kwargs w = err too_few_arguments

-- The object that may be there.
unfoldable pub maybe : Option ℕ → List ℕ
maybe none = []
maybe (some v) = v ∷ []

-- The arguments as they are parsed, or `none`.
pub record ChildArgs : Type 0 where
  pub pid : ℤ
  pub func : ℕ
  pub user_data : Option ℕ
  pub priority : Option ℤ

unfoldable pub priority_or : ℤ → Option ℤ → ℤ
priority_or default none = default
priority_or default (some p) = p

unfoldable pub child_watch_add : Env → Option ChildArgs → World → Result (ℕ × World)
unfolding install maybe priority_or
child_watch_add e none w = err bad_argument
child_watch_add e (some a) w =
    if not (e.callable a.func)
    then err not_callable
    else install e (child_exits (priority_or default_priority a.priority) a.pid)
        (a.func ∷ maybe a.user_data) (child a.func a.user_data) w

pub record ChannelArgs : Type 0 where
  pub condition : ℤ
  pub callback : ℕ
  pub user_data : Option ℕ
  pub priority : Option ℤ

-- py_io_channel_add_watch of the channel wrapper `self`.
unfoldable pub add_watch : Env → ℕ → Option ChannelArgs → World → Result (ℕ × World)
unfolding install maybe priority_or
add_watch e self none w = err bad_argument
add_watch e self (some a) w =
    if not (e.callable a.callback)
    then err not_callable
    else install e (channel_ready (priority_or default_priority a.priority) a.condition)
        (a.callback ∷ (maybe a.user_data ++ self ∷ [])) (channel a.callback a.user_data self) w

-- What is done when GLib drops the watch: _pyglib_destroy_notify, which drops the tuple and all that it
-- holds, child_watch_dnotify, and pyg_iowatch_data_free.
unfoldable pub free_watch : Watch → (ℕ → ℕ) → ℕ → ℕ
unfolding decref decref_all maybe
free_watch (handler f cbargs) refs = decref_all cbargs (decref f refs)
free_watch (fd_watch f pyfd cbargs) refs = decref_all cbargs (decref pyfd (decref f refs))
free_watch (child f user_data) refs = decref_all (maybe user_data) (decref f refs)
free_watch (channel f user_data iochannel) refs =
    decref iochannel (decref_all (maybe user_data) (decref f refs))
