-- ===== src/Examples/Others.antt =====
-- The theorems on closures, weak references, inherited slots and errors at sample values.
use debian_pygobject.Base.{
  List, ◌≡◌, refl, true, false, not, ◌||◌, ◌&&◌, none, some, Option, [], ◌∷◌, ℕ, ◌+◌, if◌then◌else◌,
  ◌==◌, ltb, CString, codes, arith,
}
use debian_pygobject.CInt.{pos, negsuc}
use debian_pygobject.Closures.{
  is_watched, watch_closure, unwatch_closure, data_free, pygobject_traverse,
}
use debian_pygobject.Closures.Watched.{once, watch-unwatch, data_free_lem}
use debian_pygobject.Closures.Traversed.{held, held_by, first_stop, pygobject_traverse_lem}
use debian_pygobject.WeakRef.{py_none, weak_ref_new, notify, incref, decref}
use debian_pygobject.WeakRef.Steps.{State, Reach, done, more, finalises, leaves, Reach-freed}
use debian_pygobject.Slots.{Slots, inherit_slots, slots_of}
use debian_pygobject.Slots.Inherited.{inherited, inherit_slots_lem}
use debian_pygobject.Errors.{World, is_gerror, error_check, gerror_exception_check, registered}
use debian_pygobject.Errors.RoundTrip.{gerror, exception_for, error_check-gerror_exception_check}

abbrev two_closures : List ℕ
two_closures = 4 ∷ (6 ∷ [])

watch-unwatch_example :
    (once (watch_closure 8 two_closures) ≡ true)
    × (once (unwatch_closure 8 two_closures) ≡ true)
    × (is_watched 6 (watch_closure 8 two_closures) ≡ ((8 == 6) || is_watched 6 two_closures))
    × (is_watched 6 (unwatch_closure 8 two_closures) ≡ (not (8 == 6) && is_watched 6 two_closures))
    × (is_watched 8 two_closures ≡ false
        → unwatch_closure 8 (watch_closure 8 two_closures) ≡ two_closures)
unfolding is_watched
watch-unwatch_example = watch-unwatch 8 6 two_closures refl

data_free_lem_example : data_free true unwatch_closure two_closures ≡ ([], two_closures)
data_free_lem_example = data_free_lem true unwatch_closure two_closures (λ c ds. refl)

-- A collector that stops at object 12.
abbrev stop_at_12 : ℕ → ℕ
stop_at_12 x = if x == 12 then 1 else 0

abbrev callback_only : ℕ → Option ℕ × Option ℕ × Option ℕ
callback_only c = (some (c + 8), none, none)

pygobject_traverse_lem_example :
    pygobject_traverse stop_at_12 callback_only (some 3) (some two_closures)
    ≡ first_stop stop_at_12 (held (some 3) (held_by callback_only two_closures))
pygobject_traverse_lem_example =
    pygobject_traverse_lem stop_at_12 callback_only (some 3) two_closures

-- The object is finalised, and then the caller drops its reference.
abbrev finalised : State
finalised = record { owners = 0; ref = decref (notify py_none (weak_ref_new true 5 (some 2) none)) }

finalised_history : Reach (record { owners = 1; ref = weak_ref_new true 5 (some 2) none }) finalised
unfolding weak_ref_new incref
finalised_history = more (finalises 1 py_none refl) (more (leaves 0) done)

Reach-freed_example :
    (finalised.ref.freed ≡ true → (finalised.owners ≡ 0) × (finalised.ref.registered ≡ false))
    × (finalised.owners ≡ 0 → finalised.ref.registered ≡ false → finalised.ref.freed ≡ true)
Reach-freed_example = Reach-freed true 5 2 none finalised finalised_history

abbrev no_slots : Slots
no_slots k = none

abbrev object_slots : Slots
object_slots k = some 1

abbrev hashed : Slots
hashed k = if k == 2 then some 7 else some 1

abbrev two_bases : List Slots
two_bases = hashed ∷ (object_slots ∷ [])

inherit_slots_lem_example :
    (ltb 2 7 ≡ true
      → inherit_slots true object_slots object_slots (some two_bases) no_slots 2
        ≡ inherited true (object_slots 2) (object_slots 2) (no_slots 2) (slots_of 2 two_bases))
    × (ltb 2 7 ≡ false
        → inherit_slots true object_slots object_slots (some two_bases) no_slots 2 ≡ no_slots 2)
inherit_slots_lem_example = inherit_slots_lem true object_slots object_slots two_bases no_slots 2

abbrev quark_name : ℕ → CString
quark_name q = q ∷ []

abbrev quark_of : CString → ℕ
quark_of [] = 0
quark_of (q ∷ s) = q

abbrev no_errors : World
no_errors = record {
  exception_table = some ((pos 4, registered 1) ∷ []);
  pending = none;
  printed = [];
  unreleased = [];
}

error_check-gerror_exception_check_example :
    gerror_exception_check quark_of
      ((error_check quark_name (some (gerror 4 (negsuc 2) (some (codes "no file")))) no_errors).1.1)
    ≡ (
      negsuc 0,
      (
        some (gerror 4 (negsuc 2) (some (codes "no file"))),
        record no_errors {
          pending = none;
          unreleased =
              exception_for quark_name
                (no_errors.exception_table)
                (gerror 4 (negsuc 2) (some (codes "no file")))
              ∷ no_errors.unreleased;
        },
      ),
    )
unfolding is_gerror
error_check-gerror_exception_check_example =
    error_check-gerror_exception_check quark_name quark_of no_errors 4 (negsuc 2) (codes "no file")
      refl refl (omega arith) refl
