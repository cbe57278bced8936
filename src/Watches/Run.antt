-- ===== src/Watches/Run.antt =====
-- What GLib calls for a watch: _pyglib_handler_marshal of glib/pyglib.c, which is pyg_handler_marshal of
-- gobject/gobjectmodule.c too, iowatch_marshal and child_watch_func of glib/glibmodule.c, and
-- pyg_iowatch_marshal of glib/pygiochannel.c.
use debian_pygobject.Base.{ℕ, ◌≡◌, refl, Bool, true, false, Option, none, some, List, [], ◌∷◌, map}
use debian_pygobject.CInt.{ℤ}
use debian_pygobject.Sources.Funcs.{truth, is_error}
use debian_pygobject.Sources.{Handler}
use debian_pygobject.Watches.{Watch, handler, fd_watch, child, channel}

-- An argument of a call: an object, or a number that Py_BuildValue makes an int of.
pub data Item : Type 0 where
  obj : ℕ → Item
  int : ℤ → Item

-- What the function returns: an exception, None, or another object with its truth.
pub data Returned : Type 0 where
  raised py_none : Returned
  value : Option Bool → Returned

-- The call of the function; whether it is kept, which -1 stands for as well; whether an exception was
-- printed, whether the function was warned about None, and whether an exception is left pending.
pub record Called : Type 0 where
  pub func : ℕ
  pub args : List Item
  pub keeps : Bool
  pub printed : Bool
  pub warned : Bool
  pub pending : Bool

unfoldable pub return_truth : Returned → Option Bool
return_truth raised = some false
return_truth py_none = some false
return_truth (value t) = t

abbrev pub is_raised : Returned → Bool
is_raised raised = true
is_raised r = false

-- _pyglib_handler_marshal, and the end of pyg_iowatch_marshal.
unfoldable pub finish_call : ℕ → List Item → Returned → Called
unfolding return_truth truth is_error
finish_call f args r = record {
  func = f;
  args = args;
  keeps = truth (return_truth r);
  printed = is_raised r;
  warned = false;
  pending = is_error (return_truth r);
}

-- PyErr_Warn fails if a filter makes an error of the warning.
unfoldable pub finish_iowatch : Bool → ℕ → List Item → Returned → Called
unfolding finish_call
finish_iowatch warning_raises f args py_none = record (finish_call f args py_none) {
  warned = true;
  printed = warning_raises;
}
finish_iowatch warning_raises f args r = finish_call f args r

-- What the event tells: the condition; or the process and its status.
pub record Happened : Type 0 where
  pub condition : ℤ
  pub pid : ℤ
  pub status : ℤ

abbrev pub maybe_obj : Option ℕ → List Item
maybe_obj none = []
maybe_obj (some v) = obj v ∷ []

-- The arguments of the function of a watch.
unfoldable pub call_args : Watch → Happened → List Item
call_args (handler f cbargs) h = map obj cbargs
call_args (fd_watch f pyfd cbargs) h = obj pyfd ∷ int h.condition ∷ map obj cbargs
call_args (child f user_data) h = int h.pid ∷ int h.status ∷ maybe_obj user_data
call_args (channel f user_data iochannel) h = obj iochannel ∷ int h.condition ∷ maybe_obj user_data

module _ (call : ℕ → List Item → Returned) where
  unfoldable pub handler_marshal : Handler → Called
  unfolding finish_call
  handler_marshal h =
      let args = map obj h.cbargs in finish_call h.callback args (call h.callback args)

  unfoldable pub iowatch_marshal : Bool → ℕ → ℕ → List ℕ → Happened → Called
  unfolding finish_iowatch call_args
  iowatch_marshal warning_raises f pyfd cbargs h =
      let args = call_args (fd_watch f pyfd cbargs) h in
      finish_iowatch warning_raises f args (call f args)

  -- The function of a process has nothing to say on whether it is kept: GLib drops it in any case.
  unfoldable pub child_watch_func : ℕ → Option ℕ → Happened → Called
  unfolding call_args
  child_watch_func f user_data h =
      let args = call_args (child f user_data) h in
      record {
        func = f;
        args = args;
        keeps = false;
        printed = is_raised (call f args);
        warned = false;
        pending = false;
      }

  -- g_return_val_if_fail is not reached: GLib passes the channel that it watches.
  unfoldable pub iochannel_marshal : ℕ → Option ℕ → ℕ → Happened → Called
  unfolding finish_call call_args
  iochannel_marshal f user_data iochannel h =
      let args = call_args (channel f user_data iochannel) h in finish_call f args (call f args)

  -- The function that GLib calls for a watch.
  unfoldable pub run_watch : Bool → Watch → Happened → Called
  unfolding handler_marshal iowatch_marshal child_watch_func iochannel_marshal
  run_watch warning_raises (handler f cbargs) h =
      handler_marshal (record { callback = f; cbargs = cbargs })
  run_watch warning_raises (fd_watch f pyfd cbargs) h =
      iowatch_marshal warning_raises f pyfd cbargs h
  run_watch warning_raises (child f user_data) h = child_watch_func f user_data h
  run_watch warning_raises (channel f user_data iochannel) h =
      iochannel_marshal f user_data iochannel h

-- The function of a watch.
abbrev pub function : Watch → ℕ
function (handler f cbargs) = f
function (fd_watch f pyfd cbargs) = f
function (child f user_data) = f
function (channel f user_data iochannel) = f

-- Whether the watch stays after an answer: only after an object that is not false, None being false, or
-- whose truth cannot be told.
abbrev pub stays : Watch → Returned → Bool
stays (child f user_data) r = false
stays w raised = false
stays w py_none = false
stays w (value none) = true
stays w (value (some b)) = b

finish_call-stays :
    (wr : Bool) (f g : ℕ) (u : List ℕ) (args : List Item) (r : Returned)
    → ((finish_call f args r).keeps ≡ stays (handler f u) r)
      × ((finish_iowatch wr f args r).keeps ≡ stays (fd_watch f g u) r)
unfolding finish_call finish_iowatch return_truth truth
finish_call-stays wr f g u args raised = (refl, refl)
finish_call-stays wr f g u args py_none = (refl, refl)
finish_call-stays wr f g u args (value none) = (refl, refl)
finish_call-stays wr f g u args (value (some b)) = (refl, refl)

finish_iowatch-args :
    (wr : Bool) (f : ℕ) (args : List Item) (r : Returned)
    → ((finish_iowatch wr f args r).func ≡ f) × ((finish_iowatch wr f args r).args ≡ args)
unfolding finish_iowatch finish_call
finish_iowatch-args wr f args raised = (refl, refl)
finish_iowatch-args wr f args py_none = (refl, refl)
finish_iowatch-args wr f args (value t) = (refl, refl)

channel-stays :
    (f g i : ℕ) (u : Option ℕ) (args : List Item) (r : Returned)
    → (finish_call f args r).keeps ≡ stays (channel g u i) r
unfolding finish_call return_truth truth
channel-stays f g i u args raised = refl
channel-stays f g i u args py_none = refl
channel-stays f g i u args (value none) = refl
channel-stays f g i u args (value (some b)) = refl

-- For each kind of watch, what GLib calls calls the function of the watch with the arguments that are
-- due to it, and keeps the watch just if the answer is not None and not false and the watch is not one
-- of a process.
pub run_watch_lem :
    (call : ℕ → List Item → Returned) (wr : Bool) (w : Watch) (h : Happened)
    → let r = run_watch call wr w h in
      (r.func ≡ function w)
      × (r.args ≡ call_args w h)
      × (r.keeps ≡ stays w (call (function w) (call_args w h)))
unfolding run_watch handler_marshal iowatch_marshal child_watch_func iochannel_marshal finish_call
    call_args
run_watch_lem call wr (handler f cbargs) h =
    (refl, refl, (finish_call-stays wr f 0 cbargs (map obj cbargs) (call f (map obj cbargs))).0)
run_watch_lem call wr (fd_watch f pyfd cbargs) h =
    let args = call_args (fd_watch f pyfd cbargs) h in
    let (same, given) = finish_iowatch-args wr f args (call f args) in
    (same, given, (finish_call-stays wr f pyfd cbargs args (call f args)).1)
run_watch_lem call wr (child f user_data) h = (refl, refl, refl)
run_watch_lem call wr (channel f user_data iochannel) h =
    let args = call_args (channel f user_data iochannel) h in
    (refl, refl, channel-stays f f iochannel user_data args (call f args))
