-- ===== src/Closures/Watched.antt =====
-- The list of watched closures, as closures are watched, unwatched and invalidated.
use debian_pygobject.Base.{
  ℕ, ◌≡◌, refl, Bool, true, false, not, ◌&&◌, ◌||◌, List, [], ◌∷◌, ◌==◌, ==_refl, arith,
}
use debian_pygobject.Closures.{
  is_watched, watch_closure, unwatch_closure, data_free_loop, data_free,
}

-- No closure stands twice in the list.
abbrev pub once : List ℕ → Bool
once [] = true
once (c ∷ cs) = not (is_watched c cs) && once cs

is_watched-unwatch :
    (c d : ℕ) (cs : List ℕ)
    → once cs ≡ true
    → is_watched d (unwatch_closure c cs) ≡ (not (c == d) && is_watched d cs)
unfolding is_watched unwatch_closure
is_watched-unwatch c d [] h = ground arith
is_watched-unwatch c d (x ∷ cs) h = ground (arith, is_watched-unwatch c d cs)

once-unwatch : (c : ℕ) (cs : List ℕ) → once cs ≡ true → once (unwatch_closure c cs) ≡ true
unfolding is_watched unwatch_closure
once-unwatch c [] h = refl
once-unwatch c (x ∷ xs) h = ground (arith, once-unwatch c xs, is_watched-unwatch c x xs)

once-watch : (c : ℕ) (cs : List ℕ) → once cs ≡ true → once (watch_closure c cs) ≡ true
unfolding is_watched watch_closure
once-watch c cs h = ground arith

is_watched-watch :
    (c d : ℕ) (cs : List ℕ) → is_watched d (watch_closure c cs) ≡ ((c == d) || is_watched d cs)
unfolding is_watched watch_closure
is_watched-watch c d cs = ground arith

unwatch-watch :
    (c : ℕ) (cs : List ℕ) → is_watched c cs ≡ false → unwatch_closure c (watch_closure c cs) ≡ cs
unfolding is_watched watch_closure unwatch_closure
unwatch-watch c cs h = rw (h, ==_refl c)

-- Watching and unwatching keep every closure at most once in the list; after watching a closure it is
-- in the list, after unwatching it is not, and the others are as they were. Unwatching the closure
-- that was watched last, if it was not watched before, gives the old list.
pub watch-unwatch :
    (c d : ℕ) (cs : List ℕ)
    → once cs ≡ true
    → (once (watch_closure c cs) ≡ true)
      × (once (unwatch_closure c cs) ≡ true)
      × (is_watched d (watch_closure c cs) ≡ ((c == d) || is_watched d cs))
      × (is_watched d (unwatch_closure c cs) ≡ (not (c == d) && is_watched d cs))
      × (is_watched c cs ≡ false → unwatch_closure c (watch_closure c cs) ≡ cs)
watch-unwatch c d cs h = (
  once-watch c cs h,
  once-unwatch c cs h,
  is_watched-watch c d cs,
  is_watched-unwatch c d cs h,
  unwatch-watch c cs,
)

loop-empty :
    (invalidate : ℕ → List ℕ → List ℕ) (cs : List ℕ)
    → ((c : ℕ) (ds : List ℕ) → invalidate c ds ≡ unwatch_closure c ds)
    → data_free_loop invalidate cs [] ≡ ([], cs)
unfolding data_free_loop unwatch_closure
loop-empty invalidate [] notifies = refl
loop-empty invalidate (c ∷ cs) notifies =
    rw (notifies c [], unwatch_closure, loop-empty invalidate cs notifies)

loop-all :
    (invalidate : ℕ → List ℕ → List ℕ) (cs : List ℕ)
    → ((c : ℕ) (ds : List ℕ) → invalidate c ds ≡ unwatch_closure c ds)
    → data_free_loop invalidate cs cs ≡ ([], cs)
unfolding data_free_loop unwatch_closure
loop-all invalidate [] notifies = refl
loop-all invalidate (c ∷ cs) notifies =
    rw (notifies c (c ∷ cs), ==_refl c, loop-all invalidate cs notifies)

-- Freeing the data of an object invalidates every closure that was watched, once each and in the
-- order of the list, and leaves none in the list, with and without NDEBUG, given that
-- g_closure_invalidate calls the notifier that watching has added.
pub data_free_lem :
    (ndebug : Bool) (invalidate : ℕ → List ℕ → List ℕ) (cs : List ℕ)
    → ((c : ℕ) (ds : List ℕ) → invalidate c ds ≡ unwatch_closure c ds)
    → data_free ndebug invalidate cs ≡ ([], cs)
unfolding data_free
data_free_lem true invalidate cs notifies = loop-all invalidate cs notifies
data_free_lem false invalidate cs notifies = loop-empty invalidate cs notifies
