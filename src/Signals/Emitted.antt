-- ===== src/Signals/Emitted.antt =====
-- From GObject.emit, in gobject/pygobject.c, to the callbacks of the signal; and what the default
-- handler leaves of the boxed values that it was given.
use debian_pygobject.Base.{
  ℕ, suc, ◌≡◌, refl, Bool, true, not, ◌&&◌, ◌||◌, Option, none, some, List, [], ◌∷◌, leb, ltb,
  times, ◌+◌, if◌then◌else◌, ◌==◌, arith, Bool-cases, inl, inr,
}
use debian_pygobject.Values.{Object, none_object, Content, Answer, stored}
use debian_pygobject.Values.ToPython.{Converted, object}
use debian_pygobject.Signals.ClassClosure.{BoxedItem, copy_referenced}
use debian_pygobject.Signals.Emit.{SignalQuery, Emission, emitted}

-- A GValue with its type, converted.
abbrev pub typed : (ℕ → Content → Converted) → ℕ × Content → Converted
typed to_object v = to_object v.0 v.1

-- What stands in for the arguments after they were stored in GValues of the types and read again.
abbrev pub Passes :
    (ℕ → Object → Answer) → (ℕ → Content → Converted) → List ℕ → List Object → List Object → Type 0
Passes from to_object [] [] [] = Unit {0}
Passes from to_object (t ∷ ts) (o ∷ os) (p ∷ ps) =
    ((c : Content) × (from t o ≡ stored c) × (to_object t c ≡ object p))
    × Passes from to_object ts os ps
Passes from to_object _ _ _ = ⊥

-- What emit returns, by what the return value holds.
abbrev pub returned : (ℕ → Content → Converted) → SignalQuery → Content → Emission
returned to_object q ret = elim q.return_type [
  | none ↦ emitted (object none_object)
  | some t ↦ emitted (to_object t ret)
]

-- A boxed wrapper that lives on owns its value.
abbrev pub safe : Option BoxedItem → Bool
safe none = true
safe (some x) = (x.refs == 1) || x.free_on_dealloc

abbrev pub all_safe : List (Option BoxedItem) → Bool
all_safe [] = true
all_safe (x ∷ xs) = safe x && all_safe xs

-- The addresses of the values that wrappers own, and how many wrappers get a copy.
abbrev pub owned : List (Option BoxedItem) → List ℕ
owned [] = []
owned (none ∷ xs) = owned xs
owned (some x ∷ xs) = if x.free_on_dealloc then x.boxed ∷ owned xs else owned xs

abbrev pub copies : List (Option BoxedItem) → ℕ
copies [] = 0
copies (x ∷ xs) = if safe x then copies xs else suc (copies xs)

-- The arguments that already were so.
abbrev pub Unchanged : List (Option BoxedItem) → List (Option BoxedItem) → Type 0
Unchanged [] [] = Unit {0}
Unchanged (x ∷ xs) (y ∷ ys) = (safe x ≡ true → y ≡ x) × Unchanged xs ys
Unchanged [] (y ∷ ys) = ⊥
Unchanged (x ∷ xs) [] = ⊥

needs_copy : (x : BoxedItem) → safe (some x) ≡ not (not (x.refs == 1) && not x.free_on_dealloc)
needs_copy x = ground arith

-- After the default handler has run, every boxed argument that something else still refers to owns its
-- value, so that the value outlives the emission, and the arguments that needed no copy are as before.
-- What wrappers own then is what they owned before, and each of the copies once: an address is owned
-- as often as before, and once more exactly if it is one of the new ones.
pub copy_referenced-safe :
    (next : ℕ) (xs : List (Option BoxedItem))
    → (all_safe (copy_referenced next xs) ≡ true)
      × Unchanged xs (copy_referenced next xs)
      × ((v : ℕ)
          → times v (owned (copy_referenced next xs))
            ≡ times v (owned xs) + (if leb next v && ltb v (next + copies xs) then 1 else 0))
unfolding copy_referenced
copy_referenced-safe next [] = (refl, tt, λ v. ground arith)
copy_referenced-safe next (none ∷ xs) =
    let (good, same, counted) = copy_referenced-safe next xs in (good, (λ e. refl, same), counted)
copy_referenced-safe next (some x ∷ xs) =
    elim (Bool-cases (not (x.refs == 1) && not x.free_on_dealloc)) [
      | inl copied ↦
          let (good, same, counted) = copy_referenced-safe (suc next) xs in
          rw (copied, copy_referenced)
            (
              ground (arith, good),
              (λ e. cc (needs_copy x, e, copied), same),
              λ v. ground (arith, counted v, copied),
            )
      | inr kept ↦
          let (good, same, counted) = copy_referenced-safe next xs in
          rw (kept, copy_referenced)
            (
              ground (arith, good, needs_copy x),
              (λ e. refl, same),
              λ v. ground (arith, counted v, kept),
            )
    ]
