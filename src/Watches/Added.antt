-- ===== src/Watches/Added.antt =====
-- What the functions that add a watch, and the freeing of a watch, do to references.
use debian_pygobject.Base.{
  ℕ, ◌+◌, ◌-◌, ◌≡◌, refl, Bool, true, false, not, Option, none, some, List, [], ◌∷◌, ◌++◌,
  if◌then◌else◌, ◌==◌, arith, times,
}
use debian_pygobject.CInt.{ℤ, word32}
use debian_pygobject.Sources.{default_idle, default_priority}
use debian_pygobject.Watches.{
  Arg, Watch, handler, fd_watch, child, channel, Event, idle, fd_ready, child_exits, channel_ready,
  World, Env, Result, ok, err, Keyword, incref, decref, incref_all, decref_all,
  get_handler_priority, install, addresses, add_handler, idle_add, add_timeout, add_fd_watch,
  io_add_watch, maybe, ChildArgs, child_watch_add, ChannelArgs, add_watch, free_watch, priority_or,
  WatchError, bad_argument, bad_fd, not_callable,
}

pub incref_lem : (x v : ℕ) (refs : ℕ → ℕ) → incref x refs v ≡ refs v + (if x == v then 1 else 0)
unfolding incref
incref_lem x v refs = ground arith

pub decref_lem : (x v : ℕ) (refs : ℕ → ℕ) → decref x refs v ≡ refs v - (if x == v then 1 else 0)
unfolding decref
decref_lem x v refs = ground arith

incref_all-times : (xs : List ℕ) (v : ℕ) (refs : ℕ → ℕ) → incref_all xs refs v ≡ refs v + times v xs
unfolding incref_all
incref_all-times [] v refs = omega arith
incref_all-times (x ∷ xs) v refs =
    ground (arith, incref_all-times xs v (incref x refs), incref_lem x v refs)

decref_all-times : (xs : List ℕ) (v : ℕ) (refs : ℕ → ℕ) → decref_all xs refs v ≡ refs v - times v xs
unfolding decref_all
decref_all-times [] v refs = omega arith
decref_all-times (x ∷ xs) v refs =
    ground (arith, decref_all-times xs v (decref x refs), decref_lem x v refs)

times-append : (v : ℕ) (xs ys : List ℕ) → times v (xs ++ ys) ≡ times v xs + times v ys
times-append v [] ys = omega arith
times-append v (x ∷ xs) ys = ground (arith, times-append v xs ys)

-- What the data of a watch refers to.
abbrev pub objects : Watch → List ℕ
objects (handler f cbargs) = f ∷ cbargs
objects (fd_watch f pyfd cbargs) = f ∷ pyfd ∷ cbargs
objects (child f none) = f ∷ []
objects (child f (some u)) = f ∷ u ∷ []
objects (channel f none self) = f ∷ self ∷ []
objects (channel f (some u) self) = f ∷ u ∷ self ∷ []

abbrev pub held : ℕ → List (ℕ × Event × Watch) → ℕ
held v [] = 0
held v ((id, event, watch) ∷ ws) = times v (objects watch) + held v ws

pub free_watch-times :
    (watch : Watch) (v : ℕ) (refs : ℕ → ℕ)
    → free_watch watch refs v ≡ refs v - times v (objects watch)
unfolding free_watch maybe decref_all
free_watch-times (handler f cbargs) v refs =
    ground (arith, decref_all-times cbargs v (decref f refs), decref_lem f v refs)
free_watch-times (fd_watch f pyfd cbargs) v refs = ground (
  arith,
  decref_all-times cbargs v (decref pyfd (decref f refs)),
  decref_lem pyfd v (decref f refs),
  decref_lem f v refs,
)
free_watch-times (child f none) v refs = ground (arith, decref_lem f v refs)
free_watch-times (child f (some u)) v refs =
    ground (arith, decref_lem f v refs, decref_lem u v (decref f refs))
free_watch-times (channel f none self) v refs =
    ground (arith, decref_lem f v refs, decref_lem self v (decref f refs))
free_watch-times (channel f (some u) self) v refs = ground (
  arith,
  decref_lem f v refs,
  decref_lem u v (decref f refs),
  decref_lem self v (decref u (decref f refs)),
)

pub held-append :
    (v : ℕ) (pre post : List (ℕ × Event × Watch)) → held v (pre ++ post) ≡ held v pre + held v post
held-append v [] post = omega arith
held-append v ((id, event, watch) ∷ pre) post = omega (arith, held-append v pre post)

-- What one of the functions does to the world if it succeeds.
abbrev pub Adds : World → ℕ × World → Type 0
Adds w r =
    (event : Event) × (watch : Watch) × (r.1.installed ≡ (r.0, event, watch) ∷ w.installed)
    × ((v : ℕ) → r.1.refs v ≡ w.refs v + times v (objects watch))

abbrev pub AddsIfOk : World → Result (ℕ × World) → Type 0
AddsIfOk w (ok r) = Adds w r
AddsIfOk w (err x) = Unit {0}

install-Adds :
    (e : Env) (event : Event) (watch : Watch) (w : World)
    → AddsIfOk w (install e event (objects watch) watch w)
unfolding install
install-Adds e event watch w = (event, watch, refl, λ v. incref_all-times (objects watch) v w.refs)

priority-Adds :
    (w : World) (p : Result ℤ) (k : ℤ → Result (ℕ × World))
    → ((n : ℤ) → AddsIfOk w (k n))
    → AddsIfOk w (elim p [ err x ↦ err x | ok n ↦ k n ])
priority-Adds w (ok n) k h = h n
priority-Adds w (err x) k h = tt

test-Adds :
    (w : World) (b : Bool) (x : WatchError) (r : Result (ℕ × World))
    → AddsIfOk w r
    → AddsIfOk w (if not b then err x else r)
test-Adds w true x r h = h
test-Adds w false x r h = tt

option-Adds {ℓ} :
    {A : Type ℓ} (w : World) (o : Option A) (x : WatchError) (k : A → Result (ℕ × World))
    → ((a : A) → AddsIfOk w (k a))
    → AddsIfOk w (elim o [ none ↦ err x | some a ↦ k a ])
option-Adds w none x k h = tt
option-Adds w (some a) x k h = h a

add_handler-Adds :
    (e : Env) (event : ℤ → Event) (default : ℤ) (kwargs : Option (List Keyword)) (f : Arg)
    (cbargs : List Arg) (w : World)
    → AddsIfOk w (add_handler e event default kwargs f cbargs w)
unfolding add_handler
add_handler-Adds e event default kwargs f cbargs w =
    test-Adds w (e.callable f.address) not_callable _ (
      priority-Adds w (get_handler_priority default kwargs) _
        (λ p. install-Adds e (event p) (handler f.address (addresses cbargs)) w))

pub idle_add-Adds :
    (e : Env) (args : List Arg) (kwargs : Option (List Keyword)) (w : World)
    → AddsIfOk w (idle_add e args kwargs w)
unfolding idle_add
idle_add-Adds e [] kwargs w = tt
idle_add-Adds e (f ∷ cbargs) kwargs w = add_handler-Adds e idle default_idle kwargs f cbargs w

pub add_timeout-Adds :
    (event : ℤ → ℕ → Event) (e : Env) (args : List Arg) (kwargs : Option (List Keyword)) (w : World)
    → AddsIfOk w (add_timeout event e args kwargs w)
unfolding add_timeout
add_timeout-Adds event e [] kwargs w = tt
add_timeout-Adds event e (n ∷ []) kwargs w = tt
add_timeout-Adds event e (n ∷ f ∷ cbargs) kwargs w =
    option-Adds w n.as_unsigned bad_argument _
      (λ i. add_handler-Adds e (λ p. event p (word32 i)) default_priority kwargs f cbargs w)

pub io_add_watch-Adds :
    (e : Env) (args : List Arg) (kwargs : Option (List Keyword)) (w : World)
    → AddsIfOk w (io_add_watch e args kwargs w)
unfolding io_add_watch add_fd_watch
io_add_watch-Adds e [] kwargs w = tt
io_add_watch-Adds e (p ∷ []) kwargs w = tt
io_add_watch-Adds e (p ∷ c ∷ []) kwargs w = tt
io_add_watch-Adds e (p ∷ c ∷ f ∷ cbargs) kwargs w = option-Adds w c.as_int bad_argument _ (λ i.
    option-Adds w p.file_descriptor bad_fd _ (λ fd.
      test-Adds w (e.callable f.address) not_callable _ (
        priority-Adds w (get_handler_priority default_priority kwargs) _ (λ n.
          install-Adds e (fd_ready n fd i) (fd_watch f.address p.address (addresses cbargs)) w))))

pub child_watch_add-Adds :
    (e : Env) (args : Option ChildArgs) (w : World) → AddsIfOk w (child_watch_add e args w)
unfolding child_watch_add maybe
child_watch_add-Adds e none w = tt
child_watch_add-Adds e (some a) w =
    test-Adds w (e.callable a.func) not_callable _ (held_child a.user_data)
  where
    held_child :
        (u : Option ℕ)
        → AddsIfOk w (
            install e
              (child_exits (priority_or default_priority a.priority) a.pid)
              (a.func ∷ maybe u)
              (child a.func u)
              w)
    held_child none = install-Adds e _ (child a.func none) w
    held_child (some u) = install-Adds e _ (child a.func (some u)) w

pub add_watch-Adds :
    (e : Env) (self : ℕ) (args : Option ChannelArgs) (w : World)
    → AddsIfOk w (add_watch e self args w)
unfolding add_watch maybe
add_watch-Adds e self none w = tt
add_watch-Adds e self (some a) w =
    test-Adds w (e.callable a.callback) not_callable _ (held_channel a.user_data)
  where
    held_channel :
        (u : Option ℕ)
        → AddsIfOk w (
            install e
              (channel_ready (priority_or default_priority a.priority) a.condition)
              (a.callback ∷ (maybe u ++ self ∷ []))
              (channel a.callback u self)
              w)
    held_channel none = install-Adds e _ (channel a.callback none self) w
    held_channel (some u) = install-Adds e _ (channel a.callback (some u) self) w
