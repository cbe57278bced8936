-- ===== src/WeakRef/Steps.antt =====
-- The references to a weak reference, over every sequence of what Python code and the GObject do.
use debian_pygobject.Base.{
  ℕ, ◌≡◌, refl, Bool, true, false, Option, none, some, is_some, ◌+◌, ◌==◌, arith, if◌then◌else◌,
}
use mathlib.Core.Option.{some-injective}
use mathlib.Core.Option
use mathlib.Core.Path.{subst}
use debian_pygobject.WeakRef.{
  WeakRef, Retval, failed, py_none, other, incref, clear_obj, clear, dealloc, decref, weak_ref_new,
  drop_floating, report, notify_callback, notify, unref_obj, unref,
}

-- A weak reference, and how many references to it Python code holds.
pub record State : Type 0 where
  pub owners : ℕ
  pub ref : WeakRef

-- Python code takes a reference, drops one, or calls `unref`; the GObject is finalised.
pub data Step : State → State → Type 0 where
  takes :
      (n : ℕ) {r : WeakRef}
      → Step (record { owners = n + 1; ref = r }) (record { owners = n + 2; ref = incref r })
  leaves :
      (n : ℕ) {r : WeakRef}
      → Step (record { owners = n + 1; ref = r }) (record { owners = n; ref = decref r })
  unrefs :
      (n : ℕ) {r r' : WeakRef}
      → unref r ≡ some r'
      → Step (record { owners = n + 1; ref = r }) (record { owners = n + 1; ref = r' })
  finalises :
      (n : ℕ) (ret : Retval) {r : WeakRef}
      → r.registered ≡ true
      → Step (record { owners = n; ref = r }) (record { owners = n; ref = notify ret r })

pub data Reach : State → State → Type 0 where
  done : {s : State} → Reach s s
  more : {s t u : State} → Step s t → Reach t u → Reach s u

abbrev pub floating : WeakRef → ℕ
floating r = if r.have_floating_ref then 1 else 0

-- Every reference is held by Python code, or is the one that the weak reference has to itself while
-- the notifier is installed; without references the weak reference is freed, and only then.
pub record IsSound (s : State) : Type 0 where
  pub counted : s.ref.refs ≡ s.owners + floating (s.ref)
  pub ends : s.ref.freed ≡ (s.ref.refs == 0)
  pub waits : s.ref.have_floating_ref ≡ true → s.ref.registered ≡ true
  pub calls : s.ref.have_floating_ref ≡ true → is_some (s.ref.callback) ≡ true
  pub tied : s.ref.registered ≡ is_some (s.ref.obj)
  pub forgets : s.ref.freed ≡ true → s.ref.registered ≡ false

-- The owners of a weak reference that is deallocated are gone.
decref-IsSound :
    (n : ℕ) (r : WeakRef)
    → IsSound (record { owners = n + 1; ref = r })
    → IsSound (record { owners = n; ref = decref r })
unfolding decref dealloc clear clear_obj
decref-IsSound n r s = record {
  counted = ground (arith, s.counted);
  ends = ground (arith, s.counted, s.ends);
  waits = ground (arith, s.counted, s.waits);
  calls = ground (arith, s.counted, s.calls);
  tied = ground (arith, s.tied);
  forgets = ground (arith, s.tied, s.ends, s.counted);
}

incref-IsSound :
    (n : ℕ) (r : WeakRef)
    → IsSound (record { owners = n + 1; ref = r })
    → IsSound (record { owners = n + 2; ref = incref r })
unfolding incref
incref-IsSound n r s = record {
  counted = ground (arith, s.counted);
  ends = ground (arith, s.counted, s.ends);
  waits = ground (arith, s.waits);
  calls = ground (arith, s.calls);
  tied = ground (arith, s.tied);
  forgets = ground (arith, s.forgets);
}

-- Once the notifier is gone, the reference that the weak reference has to itself is dropped.
drop_floating-IsSound :
    (n : ℕ) (r : WeakRef)
    → r.refs ≡ n + floating r
    → r.freed ≡ (r.refs == 0)
    → r.registered ≡ false
    → r.obj ≡ none
    → IsSound (record { owners = n; ref = drop_floating r })
unfolding drop_floating decref dealloc clear clear_obj
drop_floating-IsSound n r counted ends gone empty = record {
  counted = ground arith;
  ends = ground arith;
  waits = ground arith;
  calls = ground arith;
  tied = ground arith;
  forgets = ground arith;
}

notify_callback-IsSound :
    (n : ℕ) (ret : Retval) (callback : Option ℕ) (r : WeakRef)
    → r.refs ≡ n + floating r
    → r.freed ≡ (r.refs == 0)
    → (r.have_floating_ref ≡ true → is_some callback ≡ true)
    → r.registered ≡ false
    → r.obj ≡ none
    → IsSound (record { owners = n; ref = notify_callback callback ret r })
unfolding notify_callback report
notify_callback-IsSound n ret none r counted ends calls gone empty = record {
  counted = counted;
  ends = ends;
  waits = λ e. ground (arith, calls);
  calls = λ e. ground (arith, calls);
  tied = rw (gone, empty);
  forgets = λ e. gone;
}
notify_callback-IsSound n failed (some f) r counted ends calls gone empty =
    drop_floating-IsSound n _ counted ends gone empty
notify_callback-IsSound n py_none (some f) r counted ends calls gone empty =
    drop_floating-IsSound n _ counted ends gone empty
notify_callback-IsSound n other (some f) r counted ends calls gone empty =
    drop_floating-IsSound n _ counted ends gone empty

notify-IsSound :
    (n : ℕ) (ret : Retval) (r : WeakRef)
    → IsSound (record { owners = n; ref = r })
    → IsSound (record { owners = n; ref = notify ret r })
unfolding notify
notify-IsSound n ret r s =
    notify_callback-IsSound n ret (r.callback) _ (s.counted) (s.ends) (s.calls) refl refl

unref_obj-IsSound :
    (n : ℕ) (o : Option ℕ) (r r' : WeakRef)
    → unref_obj o r ≡ some r'
    → IsSound (record { owners = n; ref = r })
    → IsSound (record { owners = n; ref = r' })
unfolding unref_obj
unref_obj-IsSound n none r r' e s = ground (arith, e)
unref_obj-IsSound n (some o) r r' e s =
    subst (λ x. IsSound (record { owners = n; ref = x })) (some-injective _ _ e)
      (drop_floating-IsSound n _ (s.counted) (s.ends) refl refl)

unref-IsSound :
    (n : ℕ) (r r' : WeakRef)
    → unref r ≡ some r'
    → IsSound (record { owners = n; ref = r })
    → IsSound (record { owners = n; ref = r' })
unfolding unref
unref-IsSound n r r' e s = unref_obj-IsSound n (r.obj) r r' e s

Step-IsSound : {s t : State} → Step s t → IsSound s → IsSound t
Step-IsSound (takes n {r}) s = incref-IsSound n r s
Step-IsSound (leaves n {r}) s = decref-IsSound n r s
Step-IsSound (unrefs n {r} {r'} e) s = unref-IsSound (n + 1) r r' e s
Step-IsSound (finalises n ret {r} live) s = notify-IsSound n ret r s

Reach-keeps : {s t : State} → Reach s t → IsSound s → IsSound t
Reach-keeps done h = h
Reach-keeps (more st rest) h = Reach-keeps rest (Step-IsSound st h)

new-IsSound :
    (garbage : Bool) (o f : ℕ) (user_data : Option ℕ)
    → IsSound (record { owners = 1; ref = weak_ref_new garbage o (some f) user_data })
unfolding weak_ref_new incref
new-IsSound garbage o f user_data = record {
  counted = refl;
  ends = refl;
  waits = λ e. refl;
  calls = λ e. refl;
  tied = refl;
  forgets = λ e. ground (arith, e);
}

-- A weak reference with a callback, after any sequence of steps: it is freed exactly when Python
-- code has dropped every reference and the notifier is no longer installed, so it is not freed
-- before the callback can run and does not leak after; while it is freed no notifier points at it.
pub Reach-freed :
    (garbage : Bool) (o f : ℕ) (user_data : Option ℕ) (t : State)
    → Reach (record { owners = 1; ref = weak_ref_new garbage o (some f) user_data }) t
    → (t.ref.freed ≡ true → (t.owners ≡ 0) × (t.ref.registered ≡ false))
      × (t.owners ≡ 0 → t.ref.registered ≡ false → t.ref.freed ≡ true)
Reach-freed garbage o f user_data t run =
    let s = Reach-keeps run (new-IsSound garbage o f user_data) in
    ground (arith, s.counted, s.ends, s.waits, s.forgets)

-- Without a callback the field `have_floating_ref` is never set: if the memory happened to hold a
-- number that is not 0, `unref` drops the reference of its caller and frees the weak reference that
-- the caller still has; otherwise the caller's reference stays.
pub unref_garbage :
    (garbage : Bool) (o : ℕ) (user_data : Option ℕ)
    → Option.map {B = ℕ × Bool}
        (λ r. (r.refs, r.freed))
        (unref (weak_ref_new garbage o none user_data))
      ≡ some (if garbage then 0 else 1, garbage)
unfolding unref unref_obj weak_ref_new drop_floating decref dealloc clear clear_obj
unref_garbage true o user_data = refl
unref_garbage false o user_data = refl
