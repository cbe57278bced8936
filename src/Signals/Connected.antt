-- ===== src/Signals/Connected.antt =====
-- From connecting a function to a signal, in gobject/pygobject.c, to the call of the function and to
-- disconnecting it again.
use debian_pygobject.Base.{
  ℕ, ◌≡◌, refl, sym, ap, ◌∙◌, taken, Bool, true, false, Option, none, some, List, ◌∷◌, ◌++◌, map,
  ==_refl, CString,
}
use debian_pygobject.Closures.{
  PyGClosure, tuple, closure_new, is_watched, watch_closure, closure_from_pyfunc,
}
use debian_pygobject.Values.{Object, python_object, Answer}
use debian_pygobject.Values.ToPython.{Converted}
use debian_pygobject.Signals.{
  PyArg, connects, on_closure, HandlerAction, World, Env, by_callback, ok, err, not_initialized,
  unknown_signal, nothing_connected, add_closure, connect_closure, connect_callback, connect_plain,
  connect_swapped, callback_differs, by_func,
}
use debian_pygobject.Signals.Marshal.{closure_marshal}
use debian_pygobject.Signals.Called.{
  Converts, ReturnEnds, IsCallOf, closure_marshal_plain, closure_marshal_swapped,
}

-- The addresses of objects.
abbrev pub addresses : List PyArg → List ℕ
addresses = map (λ x. x.address)

-- The arguments name a signal, and the function can be called.
pub record CanConnect (e : Env) (w : World) (name : CString) (signal detail f : ℕ) : Type 0 where
  pub object : ℕ
  pub initialized : w.obj ≡ some object
  pub known : e.parse_name name ≡ some (signal, detail)
  pub is_callable : e.callable f ≡ true

connect_callback-ok :
    (e : Env) (after : Bool) (name : CString) (f : ℕ) (extra : List PyArg) (swap : Option ℕ)
    (w : World) {signal detail : ℕ}
    → CanConnect e w name signal detail f
    → connect_callback e after name f extra swap w
      ≡ connect_closure e (signal, detail) after f (addresses extra) swap w
unfolding connect_callback
connect_callback-ok e after name f extra swap w h =
    rw (h.is_callable, connect_callback)
      (taken w.obj (err not_initialized) _ h.initialized
        ∙ taken (e.parse_name name) (err unknown_signal) _ h.known)

-- The world after a connection.
abbrev pub connected : ℕ → ℕ → Bool → ℕ → List ℕ → Option ℕ → World → World
connected signal detail after f extra swap w = record ((add_closure f extra swap w).1) {
  calls = connects signal detail w.next_closure after ∷ w.calls;
}

connect_closure-ok :
    (e : Env) (signal detail : ℕ) (after : Bool) (f : ℕ) (extra : List ℕ) (swap : Option ℕ)
    (w : World)
    → connect_closure e (signal, detail) after f extra swap w
      ≡ ok (e.handler_id w.calls, connected signal detail after f extra swap w)
unfolding connect_closure add_closure
connect_closure-ok e signal detail after f extra swap w = refl

stored_closure :
    (signal detail : ℕ) (after : Bool) (f : ℕ) (extra : List ℕ) (swap : Option ℕ) (w : World)
    → (connected signal detail after f extra swap w).closures w.next_closure
      ≡ closure_new (some f) (tuple extra) swap
unfolding add_closure
stored_closure signal detail after f extra swap w = rw (==_refl w.next_closure)

-- What it means that a call connected: GLib has got a new closure, which the wrapper watches.
pub record IsConnected (signal detail : ℕ) (after : Bool) (w w' : World) : Type 0 where
  pub told : w'.calls ≡ connects signal detail w.next_closure after ∷ w.calls
  pub watches : w'.watched ≡ watch_closure w.next_closure w.watched
  pub same_object : w'.obj ≡ w.obj

connected-IsConnected :
    (signal detail : ℕ) (after : Bool) (f : ℕ) (extra : List ℕ) (swap : Option ℕ) (w : World)
    → IsConnected signal detail after w (connected signal detail after f extra swap w)
unfolding add_closure
connected-IsConnected signal detail after f extra swap w = record {
  told = refl;
  watches = refl;
  same_object = refl;
}

module _ {A : Type 0} (convert : A → Converted) (call : ℕ → List Object → Option Object) (h : Bool)
    (from : Option (Object → Answer)) (ends : ReturnEnds from) where
  -- `connect`, and `connect_after` where `after` holds, give GLib a new closure for the signal that the
  -- first argument names; when the signal is emitted and its parameters can be converted, the closure
  -- calls the second argument with them and then with the further arguments.
  pub connect-called :
      (e : Env) (w : World) (after : Bool) (x f : PyArg) (extra : List PyArg) (name : CString)
      (signal detail : ℕ)
      → x.as_text ≡ some name
      → CanConnect e w name signal detail f.address
      → (w' : World) × (connect_plain after e (x ∷ f ∷ extra) w ≡ ok (e.handler_id w.calls, w'))
        × IsConnected signal detail after w w'
        × ((pc : PyGClosure) (values : List A) (os : List Object)
            → w'.closures w.next_closure ≡ some pc
            → Converts convert values os
            → IsCallOf
                (os ++ map python_object (addresses extra))
                (closure_marshal convert call h pc from values))
  unfolding connect_plain
  connect-called e w after x f extra name signal detail text can = (
    connected signal detail after f.address (addresses extra) none w,
    rw (text, connect_plain)
        (connect_callback-ok e after name f.address extra none w can
          ∙ connect_closure-ok e signal detail after f.address (addresses extra) none w),
    connected-IsConnected signal detail after f.address (addresses extra) none w,
    λ pc values os there conv.
        closure_marshal_plain convert call h from ends f.address (addresses extra) pc values os
          (sym (stored_closure signal detail after f.address (addresses extra) none w) ∙ there)
          conv,
  )

  -- `connect_object`, and `connect_object_after` where `after` holds, do the same, but the third
  -- argument takes the place of the instance that emits.
  pub connect_object-called :
      (e : Env) (w : World) (after : Bool) (x f d : PyArg) (extra : List PyArg) (name : CString)
      (signal detail : ℕ)
      → x.as_text ≡ some name
      → CanConnect e w name signal detail f.address
      → (w' : World) × (connect_swapped after e (x ∷ f ∷ d ∷ extra) w
          ≡ ok (e.handler_id w.calls, w'))
        × IsConnected signal detail after w w'
        × ((pc : PyGClosure) (emitter : A) (values : List A) (os : List Object)
            → w'.closures w.next_closure ≡ some pc
            → Converts convert values os
            → IsCallOf
                (python_object d.address ∷ (os ++ map python_object (addresses extra)))
                (closure_marshal convert call h pc from (emitter ∷ values)))
  unfolding connect_swapped
  connect_object-called e w after x f d extra name signal detail text can = (
    connected signal detail after f.address (addresses extra) (some d.address) w,
    rw (text, connect_swapped)
        (connect_callback-ok e after name f.address extra (some d.address) w can
          ∙ connect_closure-ok e signal detail after f.address (addresses extra) (some d.address)
              w),
    connected-IsConnected signal detail after f.address (addresses extra) (some d.address) w,
    λ pc emitter values os there conv.
        closure_marshal_swapped convert call h from ends f.address d.address (addresses extra) pc
          emitter values os
          (sym (stored_closure signal detail after f.address (addresses extra) (some d.address) w)
            ∙ there)
          conv,
  )

by_func-found :
    (e : Env) (action : HandlerAction) (f : ℕ) (w : World) {a c : ℕ}
    → w.obj ≡ some a
    → e.callable f ≡ true
    → closure_from_pyfunc (callback_differs e w f) (some w.watched) ≡ some c
    → by_func action e f w
      ≡ ok (e.matching w.calls action c, record w { calls = on_closure action c ∷ w.calls })
unfolding by_func by_callback
by_func-found e action f w object is_callable found =
    taken w.obj (err not_initialized) (λ a. by_callback action e f w) object
    ∙ rw (is_callable, by_callback)
        (taken (closure_from_pyfunc (callback_differs e w f) (some w.watched))
          (err nothing_connected)
          (λ c.
            ok (e.matching w.calls action c, record w { calls = on_closure action c ∷ w.calls }))
          found)

first_closure :
    (differs : ℕ → Bool) (c : ℕ) (cs : List ℕ)
    → differs c ≡ false
    → closure_from_pyfunc differs (some (c ∷ cs)) ≡ some c
unfolding closure_from_pyfunc
first_closure differs c cs e = rw (e, closure_from_pyfunc)

new_is_first : (c : ℕ) (cs : List ℕ) → is_watched c cs ≡ false → watch_closure c cs ≡ c ∷ cs
unfolding watch_closure
new_is_first c cs e = rw (e, watch_closure)

same_callback :
    (e : Env) (w : World) (f c : ℕ) {k : PyGClosure}
    → w.closures c ≡ some k
    → k.callback ≡ some f
    → callback_differs e w f c ≡ e.differs f f
unfolding callback_differs
same_callback e w f c {k} there mine =
    taken (w.closures c) true (λ k. elim k.callback [ none ↦ true | some g ↦ e.differs g f ]) there
    ∙ taken k.callback true (λ g. e.differs g f) mine

-- After `connect`, the functions that take a callback find the new closure by it, as long as its
-- address is new and the callback equals itself, and act on that closure.
pub by_func-connect :
    (e : Env) (w : World) (after : Bool) (f : ℕ) (extra : List ℕ) (action : HandlerAction)
    (name : CString) (signal detail : ℕ)
    → CanConnect e w name signal detail f
    → is_watched w.next_closure w.watched ≡ false
    → e.differs f f ≡ false
    → (let w' = connected signal detail after f extra none w in
        by_func action e f w'
        ≡ ok (
          e.matching w'.calls action w.next_closure,
          record w' { calls = on_closure action w.next_closure ∷ w'.calls },
        ))
unfolding add_closure closure_new
by_func-connect e w after f extra action name signal detail can fresh same =
    by_func-found e action f (connected signal detail after f extra none w) can.initialized
      can.is_callable
      (ap
          (λ cs.
            closure_from_pyfunc
              (callback_differs e (connected signal detail after f extra none w) f) (some cs))
          (new_is_first w.next_closure w.watched fresh)
        ∙ first_closure _ w.next_closure w.watched (
            same_callback e (connected signal detail after f extra none w) f w.next_closure
              (stored_closure signal detail after f extra none w) refl
            ∙ same))
