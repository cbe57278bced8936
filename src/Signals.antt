-- ===== src/Signals.antt =====
-- Signals: connecting Python functions to the signals of a GObject, in gobject/pygobject.c. The calls
-- to GLib are logged, newest first.
pub mod Marshal
pub mod ClassClosure
pub mod Emit
pub mod Chain
pub mod Hooks
pub mod Accumulator
pub mod Called
pub mod Connected
pub mod Emitted
use debian_pygobject.Base.{
  ℕ, suc, ◌+◌, ◌<◌, Bool, true, false, not, Option, none, some, List, [], ◌∷◌, map, drop, length,
  ltb, if◌then◌else◌, get_elem?, update, CString,
}
use debian_pygobject.Closures.{
  PyGClosure, ExtraArgs, tuple, closure_new, watch_closure, closure_from_pyfunc,
}

-- An argument of a Python call: the address of the object, and its text if it is a string.
pub record PyArg : Type 0 where
  pub address : ℕ
  pub as_text : Option CString

-- Calls to GLib: g_signal_connect_closure_by_id with the signal, the detail, the closure and `after`;
-- what is done to one handler; and what is done to all handlers of a closure.
pub data HandlerAction : Type 0 where
  disconnects blocks unblocks : HandlerAction

pub data Call : Type 0 where
  connects : ℕ → ℕ → ℕ → Bool → Call
  on_handler on_closure : HandlerAction → ℕ → Call
  stops : ℕ → ℕ → Call

-- A wrapper's GObject and the closures that it watches; all closures by address; the calls.
pub record World : Type 0 where
  pub obj : Option ℕ
  pub watched : List ℕ
  pub closures : ℕ → Option PyGClosure
  pub next_closure : ℕ
  pub calls : List Call

-- What Python and GLib answer: whether an object can be called, g_signal_parse_name for the type of
-- the object, the id of the handler that is connected next, how many handlers a closure has, and
-- PyObject_Cmp of two callbacks.
pub record Env : Type 0 where
  pub callable : ℕ → Bool
  pub parse_name : CString → Option (ℕ × ℕ)
  pub handler_id : List Call → ℕ
  pub matching : List Call → HandlerAction → ℕ → ℕ
  pub is_connected : List Call → ℕ → Bool
  pub differs : ℕ → ℕ → Bool

pub data SignalError : Type 0 where
  too_few_arguments bad_argument not_callable not_initialized unknown_signal : SignalError
  nothing_connected wrong_count cannot_convert : SignalError

pub data Result {ℓ} (A : Type ℓ) : Type ℓ where
  ok : A → Result A
  err : SignalError → Result A

-- pyg_closure_new with a callback, a tuple of extra arguments, and the data to swap in, and then
-- pygobject_watch_closure: the closure, whose address is new, is watched.
unfoldable pub add_closure : ℕ → List ℕ → Option ℕ → World → ℕ × World
unfolding closure_new watch_closure
add_closure callback extra swap w = (
  w.next_closure,
  record w {
    closures = update w.closures w.next_closure (closure_new (some callback) (tuple extra) swap);
    next_closure = suc w.next_closure;
    watched = watch_closure w.next_closure w.watched;
  },
)

-- g_signal_connect_closure_by_id
unfoldable pub connect_closure :
    Env → ℕ × ℕ → Bool → ℕ → List ℕ → Option ℕ → World → Result (ℕ × World)
unfolding add_closure
connect_closure e (signal, detail) after callback extra swap w =
    let (c, w₁) = add_closure callback extra swap w in
    ok (e.handler_id w.calls, record w₁ { calls = connects signal detail c after ∷ w.calls })

-- From the test of the callback on; `name` is the first argument.
unfoldable pub connect_callback :
    Env → Bool → CString → ℕ → List PyArg → Option ℕ → World → Result (ℕ × World)
unfolding connect_closure
connect_callback e after name callback extra swap w =
    if not (e.callable callback) then err not_callable else elim w.obj [
      | none ↦ err not_initialized
      | some a ↦ elim (e.parse_name name) [
        | none ↦ err unknown_signal
        | some s ↦ connect_closure e s after callback (map (λ x. x.address) extra) swap w
      ]
    ]

-- The two functions without an object to swap in: at least two arguments.
unfoldable pub connect_plain : Bool → Env → List PyArg → World → Result (ℕ × World)
unfolding connect_callback
connect_plain after e (x ∷ f ∷ extra) w = elim x.as_text [
  | none ↦ err bad_argument
  | some name ↦ connect_callback e after name f.address extra none w
]
connect_plain after e args w = err too_few_arguments

-- The two functions with an object to swap in: at least three arguments.
unfoldable pub connect_swapped : Bool → Env → List PyArg → World → Result (ℕ × World)
unfolding connect_callback
connect_swapped after e (x ∷ f ∷ d ∷ extra) w = elim x.as_text [
  | none ↦ err bad_argument
  | some name ↦ connect_callback e after name f.address extra (some d.address) w
]
connect_swapped after e args w = err too_few_arguments

unfoldable pub connect : Env → List PyArg → World → Result (ℕ × World)
unfolding connect_plain
connect e args w = connect_plain false e args w

unfoldable pub connect_after : Env → List PyArg → World → Result (ℕ × World)
unfolding connect_plain
connect_after e args w = connect_plain true e args w

unfoldable pub connect_object : Env → List PyArg → World → Result (ℕ × World)
unfolding connect_swapped
connect_object e args w = connect_swapped false e args w

unfoldable pub connect_object_after : Env → List PyArg → World → Result (ℕ × World)
unfolding connect_swapped
connect_object_after e args w = connect_swapped true e args w

-- The functions on a handler id. handler_unblock calls GLib without a test of the object.
unfoldable pub on_handler_id : HandlerAction → ℕ → World → Result World
on_handler_id action id w = elim w.obj [
  | none ↦ err not_initialized
  | some a ↦ ok (record w { calls = on_handler action id ∷ w.calls })
]

unfoldable pub disconnect : ℕ → World → Result World
unfolding on_handler_id
disconnect id w = on_handler_id disconnects id w

unfoldable pub handler_block : ℕ → World → Result World
unfolding on_handler_id
handler_block id w = on_handler_id blocks id w

unfoldable pub handler_unblock : ℕ → World → Result World
handler_unblock id w = ok (record w { calls = on_handler unblocks id ∷ w.calls })

unfoldable pub handler_is_connected : Env → ℕ → World → Result Bool
handler_is_connected e id w = elim w.obj [
  | none ↦ err not_initialized
  | some a ↦ ok (e.is_connected w.calls id)
]

-- PyObject_Cmp of the callback of a closure, if it has one, and a function.
unfoldable pub callback_differs : Env → World → ℕ → ℕ → Bool
callback_differs e w f c = elim (w.closures c) [
  | none ↦ true
  | some k ↦ elim k.callback [ none ↦ true | some g ↦ e.differs g f ]
]

-- The three functions that act on all handlers of the closure of a function, and return how many
-- there were; first from the test of the function on.
unfoldable pub by_callback : HandlerAction → Env → ℕ → World → Result (ℕ × World)
unfolding callback_differs closure_from_pyfunc
by_callback action e f w =
    if not (e.callable f)
    then err not_callable
    else elim (closure_from_pyfunc (callback_differs e w f) (some w.watched)) [
      | none ↦ err nothing_connected
      | some c ↦
          ok (e.matching w.calls action c, record w { calls = on_closure action c ∷ w.calls })
    ]

unfoldable pub by_func : HandlerAction → Env → ℕ → World → Result (ℕ × World)
unfolding by_callback
by_func action e f w = elim w.obj [ none ↦ err not_initialized | some a ↦ by_callback action e f w ]

unfoldable pub disconnect_by_func : Env → ℕ → World → Result (ℕ × World)
unfolding by_func
disconnect_by_func e f w = by_func disconnects e f w

unfoldable pub handler_block_by_func : Env → ℕ → World → Result (ℕ × World)
unfolding by_func
handler_block_by_func e f w = by_func blocks e f w

unfoldable pub handler_unblock_by_func : Env → ℕ → World → Result (ℕ × World)
unfolding by_func
handler_unblock_by_func e f w = by_func unblocks e f w

-- `signal` is what the string argument says.
unfoldable pub stop_emission : Env → CString → World → Result World
stop_emission e signal w = elim w.obj [
  | none ↦ err not_initialized
  | some a ↦ elim (e.parse_name signal) [
    | none ↦ err unknown_signal
    | some (id, detail) ↦ ok (record w { calls = stops id detail ∷ w.calls })
  ]
]
