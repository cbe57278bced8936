-- ===== src/Sources/History.antt =====
-- The references to a wrapper of a source and to the source itself, over every sequence of what
-- Python code does with the wrapper.
use mathlib.Core.Path.{subst}
use debian_pygobject.Base.{
  ℕ, suc, ◌+◌, ◌<◌, ◌≤◌, ◌≡◌, refl, sym, Bool, true, false, Option, is_some, List, [], ◌∷◌,
  if◌then◌else◌, arith, Bool-cases, inl, inr,
}
use debian_pygobject.CInt.{ℤ, zeq}
use debian_pygobject.Sources.{
  creates, blank, Source, Call, attaches, destroys, unrefs, sets_callback, sets_priority,
  sets_can_recurse, adds_poll, removes_poll, Env, ok, log, attach, hold, destroy, let_go, clear,
  dealloc, decref, init, init_native, checked,
}

-- How often a source was made; how often one that is implemented in Python was attached; how often one
-- was destroyed; how often one in Python was destroyed while it had a context; and how often one was
-- unreferenced.
abbrev pub created : List Call → ℕ
created [] = 0
created (creates ∷ cs) = suc (created cs)
created (_ ∷ cs) = created cs

abbrev pub attached : List Call → ℕ
attached [] = 0
attached (attaches true c ∷ cs) = suc (attached cs)
attached (_ ∷ cs) = attached cs

abbrev pub destroyed : List Call → ℕ
destroyed [] = 0
destroyed (destroys p ∷ cs) = suc (destroyed cs)
destroyed (_ ∷ cs) = destroyed cs

abbrev pub detached : Env → List Call → ℕ
detached e [] = 0
detached e (destroys true ∷ cs) =
    if is_some (e.context cs) then suc (detached e cs) else detached e cs
detached e (_ ∷ cs) = detached e cs

abbrev pub unreferenced : List Call → ℕ
unreferenced [] = 0
unreferenced (unrefs ∷ cs) = suc (unreferenced cs)
unreferenced (_ ∷ cs) = unreferenced cs

-- Whether the source that was made last is still there, and how often one was that was overwritten.
abbrev pub present : List Call → Bool
present [] = false
present (creates ∷ cs) = true
present (destroys p ∷ cs) = false
present (unrefs ∷ cs) = false
present (_ ∷ cs) = present cs

abbrev pub overwritten : List Call → ℕ
overwritten [] = 0
overwritten (creates ∷ cs) = if present cs then suc (overwritten cs) else overwritten cs
overwritten (_ ∷ cs) = overwritten cs

-- How often the source that was made last was attached, and how often as one in Python.
abbrev pub attached_now : List Call → ℕ
attached_now [] = 0
attached_now (creates ∷ cs) = 0
attached_now (attaches p c ∷ cs) = suc (attached_now cs)
attached_now (_ ∷ cs) = attached_now cs

abbrev pub held_now : List Call → ℕ
held_now [] = 0
held_now (creates ∷ cs) = 0
held_now (attaches true c ∷ cs) = suc (held_now cs)
held_now (_ ∷ cs) = held_now cs

-- The other calls.
abbrev pub changes : Call → Bool
changes (sets_callback h) = true
changes (sets_priority n) = true
changes (sets_can_recurse b) = true
changes (adds_poll fd) = true
changes (removes_poll fd) = true
changes _ = false

-- What may happen to a wrapper while `n` references are held outside of GLib. A method runs only
-- while there is one; a method of the source's own makes one more out of the object that GLib has.
pub data Reach (e : Env) : ℕ → Source → Type 0 where
  starts : Reach e 1 blank
  initializing : (n s : ℕ) {x : Source} → Reach e (suc n) x → Reach e (suc n) (init s x)
  initializing_native :
      (n s : ℕ) (default priority : ℤ) {x : Source}
      → Reach e (suc n) x
      → Reach e (suc n) (init_native default s priority x)
  attaching :
      (n id : ℕ) (c : Option (Option ℕ)) {x y : Source}
      → Reach e (suc n) x
      → attach e c x ≡ ok (id, y)
      → Reach e (suc n) y
  destroying : (n : ℕ) {x y : Source} → Reach e (suc n) x → destroy e x ≡ ok y → Reach e (suc n) y
  changing :
      (n : ℕ) (c : Call) {x y : Source}
      → Reach e (suc n) x
      → changes c ≡ true
      → checked c x ≡ ok y
      → Reach e (suc n) y
  taking :
      (n : ℕ) {x : Source}
      → Reach e n x
      → 0 < x.refs
      → Reach e (suc n) (record x { refs = x.refs + 1 })
  dropping : (n : ℕ) {x : Source} → Reach e (suc n) x → Reach e n (decref x)

-- Of the references to the wrapper, those that are not held outside are one for each time that a source
-- in Python was attached, less those that destroy gave back; and of the sources that were made, each but
-- the one that the wrapper has was dropped, given up by destroy, or forgotten by a later __init__.
pub record IsCounted (e : Env) (n : ℕ) (x : Source) : Type 0 where
  pub counted : x.refs + detached e x.calls ≡ n + attached x.calls
  pub owned :
      unreferenced x.calls
        + destroyed x.calls
        + overwritten x.calls
        + (if is_some x.source then 1 else 0)
      ≡ created x.calls
  pub there : is_some x.source ≡ present x.calls
  pub fits :
      detached e x.calls + (if is_some x.source then held_now x.calls else 0) ≤ attached x.calls
  pub kind : x.python_source ≡ true → held_now x.calls ≡ attached_now x.calls

-- Only a source that was attached has a context.
abbrev pub OnlyAttached : Env → Type 0
OnlyAttached e = (cs : List Call) → is_some (e.context cs) ≡ true → 0 < attached_now cs

module _ (e : Env) where
  attach-IsCounted :
      (n id : ℕ) (c : Option (Option ℕ)) {x y : Source}
      → IsCounted e n x
      → attach e c x ≡ ok (id, y)
      → IsCounted e n y
  unfolding attach hold log
  attach-IsCounted n id c v h = ground (arith, v.counted, v.owned, v.there, v.fits, v.kind)

  destroy-IsCounted :
      (n : ℕ) {x y : Source}
      → OnlyAttached e
      → IsCounted e (suc n) x
      → destroy e x ≡ ok y
      → IsCounted e (suc n) y
  unfolding destroy let_go log
  destroy-IsCounted n {x} only v h =
      ground (arith, v.counted, v.owned, v.there, v.fits, v.kind, only x.calls)

  log_change :
      (n : ℕ) (c : Call) (x : Source) → changes c ≡ true → IsCounted e n x → IsCounted e n (log c x)
  unfolding log
  log_change n (sets_callback h) x t v = record {
    counted = v.counted;
    owned = v.owned;
    there = v.there;
    fits = v.fits;
    kind = v.kind;
  }
  log_change n (sets_priority h) x t v = record {
    counted = v.counted;
    owned = v.owned;
    there = v.there;
    fits = v.fits;
    kind = v.kind;
  }
  log_change n (sets_can_recurse h) x t v = record {
    counted = v.counted;
    owned = v.owned;
    there = v.there;
    fits = v.fits;
    kind = v.kind;
  }
  log_change n (adds_poll h) x t v = record {
    counted = v.counted;
    owned = v.owned;
    there = v.there;
    fits = v.fits;
    kind = v.kind;
  }
  log_change n (removes_poll h) x t v = record {
    counted = v.counted;
    owned = v.owned;
    there = v.there;
    fits = v.fits;
    kind = v.kind;
  }
  log_change n (attaches p c) x t v = cc
  log_change n creates x t v = cc
  log_change n (destroys p) x t v = cc
  log_change n unrefs x t v = cc

  decref-IsCounted : (n : ℕ) (x : Source) → IsCounted e (suc n) x → IsCounted e n (decref x)
  unfolding decref dealloc clear log
  decref-IsCounted n x v = ground (arith, v.counted, v.owned, v.there, v.fits, v.kind)

  init-IsCounted : (n s : ℕ) (x : Source) → IsCounted e n x → IsCounted e n (init s x)
  unfolding init log
  init-IsCounted n s x v = ground (arith, v.counted, v.owned, v.there, v.fits)

  init_native-IsCounted :
      (n s : ℕ) (default priority : ℤ) (x : Source)
      → IsCounted e n x
      → IsCounted e n (init_native default s priority x)
  unfolding init_native log
  init_native-IsCounted n s default priority x v = elim (Bool-cases (zeq priority default)) [
    | inl same ↦ rw (same, init_native) (ground (arith, v.counted, v.owned, v.there, v.fits))
    | inr other ↦ rw (other, init_native) (ground (arith, v.counted, v.owned, v.there, v.fits))
  ]

  checked-log : (c : Call) (x : Source) {y : Source} → checked c x ≡ ok y → y ≡ log c x
  unfolding checked
  checked-log c x h = ground (arith)

  -- Whatever is done with a wrapper of a source, calls of __init__ on one that has a source included: of
  -- the references to it, those that are not held outside are one for each time that a source
  -- implemented in Python was attached, less one for each time that such a source was destroyed while
  -- it had a context; and each source that was made for it is still there, was dropped by the end of
  -- the wrapper, was given up by destroy, which never drops it, or was overwritten by a later __init__,
  -- in just one of these ways.
  pub Reach-IsCounted : {n : ℕ} {x : Source} → OnlyAttached e → Reach e n x → IsCounted e n x
  Reach-IsCounted only starts = record {
    counted = refl;
    owned = refl;
    there = refl;
    fits = omega arith;
    kind = λ p. refl;
  }
  Reach-IsCounted only (initializing n s {x} r) =
      init-IsCounted (suc n) s x (Reach-IsCounted only r)
  Reach-IsCounted only (initializing_native n s default priority {x} r) =
      init_native-IsCounted (suc n) s default priority x (Reach-IsCounted only r)
  Reach-IsCounted only (attaching n id c r h) =
      attach-IsCounted (suc n) id c (Reach-IsCounted only r) h
  Reach-IsCounted only (destroying n r h) = destroy-IsCounted n only (Reach-IsCounted only r) h
  Reach-IsCounted only (changing n c {x} r t h) =
      subst (IsCounted e (suc n)) (sym (checked-log c x h))
        (log_change (suc n) c x t (Reach-IsCounted only r))
  Reach-IsCounted only (taking n {x} r alive) =
      let v = Reach-IsCounted only r in
      record {
        counted = ground (arith, v.counted);
        owned = v.owned;
        there = v.there;
        fits = v.fits;
        kind = v.kind;
      }
  Reach-IsCounted only (dropping n {x} r) = decref-IsCounted n x (Reach-IsCounted only r)
