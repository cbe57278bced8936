-- ===== src/Slots/Inherited.antt =====
-- The inherited value of a slot, described by the custom values of the bases.
use debian_pygobject.Base.{
  ℕ, ◌≡◌, ◌∙◌, refl, ap, sym, Bool, true, false, not, ◌&&◌, ◌||◌, Option, none, some, is_some, List,
  [], ◌∷◌, ◌==◌, ltb, if◌then◌else◌, or_else, arith, Bool-cases, inl, inr,
}
use debian_pygobject.Slots.{
  Slots, slot_offsets, same, find_loop, store_found, find_slot_for, slots_of, inherit_loop,
  inherit_slots,
}

-- The values that are custom: neither NULL nor those of the two base types.
abbrev pub customs : Option ℕ → Option ℕ → List (Option ℕ) → List ℕ
customs gobject object [] = []
customs gobject object (none ∷ slots) = customs gobject object slots
customs gobject object (some f ∷ slots) =
    if same (some f) gobject || same (some f) object
    then customs gobject object slots
    else f ∷ customs gobject object slots

-- All the same.
abbrev pub all_are : ℕ → List ℕ → Bool
all_are f [] = true
all_are f (g ∷ gs) = (f == g) && all_are f gs

-- The one value of a list that has just one, maybe more than once.
abbrev pub unanimous : List ℕ → Option ℕ
unanimous [] = none
unanimous (f ∷ fs) = if all_are f fs then some f else none

found-all_are :
    (gobject object own : Option ℕ) (f : ℕ) (slots : List (Option ℕ))
    → store_found (find_loop gobject object (some f) slots) own
      ≡ (if all_are f (customs gobject object slots) then some f else own)
unfolding find_loop store_found same
found-all_are gobject object own f [] = refl
found-all_are gobject object own f (none ∷ slots) = found-all_are gobject object own f slots
found-all_are gobject object own f (some g ∷ slots) =
    elim (Bool-cases (same (some g) gobject || same (some g) object)) [
      | inl base ↦ rw (base, found-all_are gobject object own f slots) refl
      | inr custom ↦ elim (Bool-cases (f == g)) [
        | inl eq ↦
            let fg : f ≡ g = ground arith in
            rw (custom, eq, found-all_are gobject object own g slots)
              (ap (λ x. if all_are x (customs gobject object slots) then some x else own) (sym fg))
        | inr ne ↦ rw (custom, ne) refl
      ]
    ]

found-unanimous :
    (gobject object own : Option ℕ) (slots : List (Option ℕ))
    → store_found (find_loop gobject object none slots) own
      ≡ or_else (unanimous (customs gobject object slots)) own
unfolding find_loop store_found
found-unanimous gobject object own [] = refl
found-unanimous gobject object own (none ∷ slots) = found-unanimous gobject object own slots
found-unanimous gobject object own (some g ∷ slots) =
    elim (Bool-cases (same (some g) gobject || same (some g) object)) [
      | inl base ↦ rw (base, found-unanimous gobject object own slots) refl
      | inr custom ↦
          rw (custom, found-all_are gobject object own g slots)
            (elim (Bool-cases (all_are g (customs gobject object slots))) [
              | inl all ↦ rw all refl
              | inr some_differ ↦ rw some_differ refl
            ])
    ]

-- The value of a slot afterwards, described by the bases' values alone.
abbrev pub inherited : Bool → Option ℕ → Option ℕ → Option ℕ → List (Option ℕ) → Option ℕ
inherited check_for_present gobject object own slots =
    if check_for_present && is_some own
    then own
    else or_else (unanimous (customs gobject object slots)) own

find_slot_for-inherited :
    (check : Bool) (gobject object own : Option ℕ) (slots : List (Option ℕ))
    → find_slot_for check gobject object own slots ≡ inherited check gobject object own slots
unfolding find_slot_for
find_slot_for-inherited check gobject object own slots =
    ap (λ x. if check && is_some own then own else x) (found-unanimous gobject object own slots)

member : ℕ → List ℕ → Bool
member k [] = false
member k (j ∷ js) = (k == j) || member k js

distinct : List ℕ → Bool
distinct [] = true
distinct (k ∷ ks) = not (member k ks) && distinct ks

listed : (k : ℕ) → ltb k 7 ≡ true → member k slot_offsets ≡ true
unfolding member
listed k h = ground arith

unlisted : (k : ℕ) → ltb k 7 ≡ false → member k slot_offsets ≡ false
unfolding member
unlisted k h = ground arith

module _ (check : Bool) (gobject object : Slots) (bases : List Slots) where
  loop-others :
      (ks : List ℕ) (type : Slots) (k : ℕ)
      → member k ks ≡ false
      → inherit_loop check gobject object bases ks type k ≡ type k
  unfolding inherit_loop member
  loop-others [] type k out = refl
  loop-others (j ∷ js) type k out =
      let ne : (k == j) ≡ false = ground (arith, out) in
      let rest : member k js ≡ false = ground (arith, out) in loop-others js _ k rest ∙ rw ne refl

  loop-inherited :
      (ks : List ℕ) (type : Slots) (k : ℕ)
      → distinct ks ≡ true
      → member k ks ≡ true
      → inherit_loop check gobject object bases ks type k
        ≡ inherited check (gobject k) (object k) (type k) (slots_of k bases)
  unfolding inherit_loop member distinct
  loop-inherited [] type k once here = ground (arith, here)
  loop-inherited (j ∷ js) type k once here = elim (Bool-cases (k == j)) [
    | inl eq ↦
        let kj : k ≡ j = ground arith in
        let out : member k js ≡ false = rw kj (ground (arith, once)) in
        loop-others js _ k out
        ∙ rw eq (find_slot_for-inherited check (gobject j) (object j) (type j) (slots_of j bases))
        ∙ ap (λ i. inherited check (gobject i) (object i) (type i) (slots_of i bases)) (sym kj)
    | inr ne ↦
        loop-inherited js _ k (ground (arith, once)) (ground (arith, here))
        ∙ ap (λ own. inherited check (gobject k) (object k) own (slots_of k bases)) (rw ne refl)
  ]

  -- Each of the seven slots is left alone if it must be kept; otherwise it takes the value that the
  -- bases with a custom value agree on, where a value is custom if it is not NULL and is not that of
  -- GObject or object; if no base has one, or two differ, it is left alone. No other slot changes.
  pub inherit_slots_lem :
      (type : Slots) (k : ℕ)
      → (ltb k 7 ≡ true
          → inherit_slots check gobject object (some bases) type k
            ≡ inherited check (gobject k) (object k) (type k) (slots_of k bases))
        × (ltb k 7 ≡ false → inherit_slots check gobject object (some bases) type k ≡ type k)
  unfolding inherit_slots distinct member
  inherit_slots_lem type k = (
    λ h. loop-inherited slot_offsets type k refl (listed k h),
    λ h. loop-others slot_offsets type k (unlisted k h),
  )
