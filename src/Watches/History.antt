-- ===== src/Watches/History.antt =====
-- The references that watches hold, over every sequence of additions and of what GLib and Python code
-- do.
use mathlib.Core.Path.{subst}
use debian_pygobject.Base.{ℕ, ◌+◌, ◌<◌, ◌≡◌, ap, Option, List, [], ◌∷◌, ◌++◌, arith}
use debian_pygobject.Watches.{
  Arg, Watch, Event, timeout, timeout_seconds, World, Env, Result, ok, Keyword, incref, decref,
  idle_add, timeout_add, timeout_add_seconds, io_add_watch, ChildArgs, child_watch_add, ChannelArgs,
  add_watch, free_watch,
}
use debian_pygobject.Watches.Added.{
  incref_lem, decref_lem, free_watch-times, held-append, idle_add-Adds, add_timeout-Adds,
  io_add_watch-Adds, child_watch_add-Adds, add_watch-Adds, Adds, AddsIfOk, held,
}

-- The six functions that add a watch.
pub data Adding : Type 0 where
  idles timeouts timeouts_seconds io_adds : List Arg → Option (List Keyword) → Adding
  child_adds : Option ChildArgs → Adding
  channel_adds : ℕ → Option ChannelArgs → Adding

abbrev pub add : Env → Adding → World → Result (ℕ × World)
add e (idles args kwargs) w = idle_add e args kwargs w
add e (timeouts args kwargs) w = timeout_add e args kwargs w
add e (timeouts_seconds args kwargs) w = timeout_add_seconds e args kwargs w
add e (io_adds args kwargs) w = io_add_watch e args kwargs w
add e (child_adds args) w = child_watch_add e args w
add e (channel_adds self args) w = add_watch e self args w

add-Adds : (e : Env) (a : Adding) (w : World) → AddsIfOk w (add e a w)
unfolding timeout_add timeout_add_seconds
add-Adds e (idles args kwargs) w = idle_add-Adds e args kwargs w
add-Adds e (timeouts args kwargs) w = add_timeout-Adds timeout e args kwargs w
add-Adds e (timeouts_seconds args kwargs) w = add_timeout-Adds timeout_seconds e args kwargs w
add-Adds e (io_adds args kwargs) w = io_add_watch-Adds e args kwargs w
add-Adds e (child_adds args) w = child_watch_add-Adds e args w
add-Adds e (channel_adds self args) w = add_watch-Adds e self args w

-- What may happen, while others hold `outside`: a watch is added; GLib drops one and calls what was
-- given for that; other code takes or drops a reference.
pub data Reach : (ℕ → ℕ) → World → Type 0 where
  starts : (refs : ℕ → ℕ) → Reach refs (record { refs = refs; installed = [] })
  adding :
      (e : Env) (a : Adding) (id : ℕ) {outside : ℕ → ℕ} {w w' : World}
      → Reach outside w
      → add e a w ≡ ok (id, w')
      → Reach outside w'
  freeing :
      (id : ℕ) (event : Event) (watch : Watch) (pre post : List (ℕ × Event × Watch))
      {outside : ℕ → ℕ} {w : World}
      → Reach outside w
      → w.installed ≡ pre ++ (id, event, watch) ∷ post
      → Reach outside (record { refs = free_watch watch w.refs; installed = pre ++ post })
  taking :
      (v : ℕ) {outside : ℕ → ℕ} {w : World}
      → Reach outside w
      → Reach (incref v outside) (record w { refs = incref v w.refs })
  dropping :
      (v : ℕ) {outside : ℕ → ℕ} {w : World}
      → Reach outside w
      → 0 < outside v
      → Reach (decref v outside) (record w { refs = decref v w.refs })

Adds-held :
    (w : World) (id v n : ℕ) (w' : World)
    → Adds w (id, w')
    → w.refs v ≡ n + held v w.installed
    → w'.refs v ≡ n + held v w'.installed
Adds-held w id v n w' (event, watch, listed, counted) h = rw listed (omega (arith, counted v, h))

free-held :
    (id v n : ℕ) (event : Event) (watch : Watch) (pre post : List (ℕ × Event × Watch)) (w : World)
    → w.installed ≡ pre ++ (id, event, watch) ∷ post
    → w.refs v ≡ n + held v w.installed
    → free_watch watch w.refs v ≡ n + held v (pre ++ post)
free-held id v n event watch pre post w listed h = omega (
  arith,
  free_watch-times watch v w.refs,
  h,
  ap (held v) listed,
  held-append v pre ((id, event, watch) ∷ post),
  held-append v pre post,
)

-- Whatever watches are added and dropped, an object has the references that others hold, and for each
-- watch that GLib still has one for each place that the object has in its data.
pub Reach-held :
    {outside : ℕ → ℕ} {w : World}
    → Reach outside w
    → (v : ℕ) → w.refs v ≡ outside v + held v w.installed
Reach-held (starts refs) v = omega arith
Reach-held (adding e a id {outside} {w} {w'} r h) v =
    Adds-held w id v (outside v) w' (subst (AddsIfOk w) h (add-Adds e a w)) (Reach-held r v)
Reach-held (freeing id event watch pre post {outside} {w} r listed) v =
    free-held id v (outside v) event watch pre post w listed (Reach-held r v)
Reach-held (taking x {outside} {w} r) v =
    omega (arith, incref_lem x v outside, incref_lem x v w.refs, Reach-held r v)
Reach-held (dropping x {outside} {w} r h) v =
    ground (arith, decref_lem x v outside, decref_lem x v w.refs, Reach-held r v)
