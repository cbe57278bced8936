-- ===== src/Classes/Merged.antt =====
-- pygobject_register_class of gobject/pygobject.c: a class that is there becomes the class of a type.
use debian_pygobject.Base.{
  ℕ, ◌≡◌, refl, ap, Bool, true, false, not, ◌&&◌, ◌||◌, Option, none, some, List, [], ◌∷◌, ◌++◌,
  map, drop, ◌==◌, if◌then◌else◌, update, CString, arith, ==_iff, Bool-cases, inl, inr,
}
use debian_pygobject.Slots.{Slots, inherit_slots}
use debian_pygobject.Classes.{
  World, Env, Bases, bases, no_bases, no_fuel, type_get_bases, lookup_class,
}

-- PySequence_Contains
unfoldable pub contains : ℕ → List ℕ → Bool
contains b [] = false
contains b (x ∷ xs) = (x == b) || contains b xs

-- The loop over the runtime bases behind the first: one that is neither a static base nor in the method
-- resolution order of the first static base is appended.
unfoldable pub add_missing : List ℕ → List ℕ → List ℕ → List ℕ
unfolding contains
add_missing mro [] bases_list = bases_list
add_missing mro (b ∷ bs) bases_list =
    add_missing mro bs
      (if contains b bases_list || contains b mro then bases_list else bases_list ++ b ∷ [])

-- strrchr with '.': what is before and behind the last dot.
unfoldable pub split_last : CString → Option (CString × CString)
split_last [] = none
split_last (c ∷ cs) = elim (split_last cs) [
  | some (before, behind) ↦ some (c ∷ before, behind)
  | none ↦ if c == b'.' then some ([], cs) else none
]

-- The class in its world, and what the module dictionary is given; or the end in a null pointer, or too
-- little fuel for the classes of the bases.
pub data Registered : Type 0 where
  registered : World → CString × ℕ → Registered
  not_ready : World → Registered
  crashed exhausted : Registered

unfoldable pub merge_bases : (ℕ → List ℕ) → Option (List ℕ) → Bases → Option (Option (List ℕ))
unfolding add_missing
merge_bases mro none (bases bs) = some (some bs)
merge_bases mro none no_bases = some none
merge_bases mro (some []) b = none
merge_bases mro (some (s ∷ ss)) (bases bs) = some (some (add_missing (mro s) (drop 1 bs) (s ∷ ss)))
merge_bases mro (some (s ∷ ss)) no_bases = none
merge_bases mro none no_fuel = none
merge_bases mro (some (s ∷ ss)) no_fuel = none

abbrev pub or_nil : Option (List ℕ) → List ℕ
or_nil none = []
or_nil (some bs) = bs

-- The parts of tp_name; without a dot, the module stays as it is.
unfoldable pub names_of : CString → CString → CString × CString
unfolding split_last
names_of tp_name mod_name = elim (split_last tp_name) [
  | none ↦ (mod_name, tp_name)
  | some (before, behind) ↦ (before, behind)
]

-- From the bases on; `none` for them is NULL. The metaclass and the documentation are left out.
unfoldable pub set_up_class : Env → CString → ℕ → ℕ → Option (List ℕ) → World → Registered
unfolding inherit_slots names_of
set_up_class e tp_name t c bs w =
    let old = w.classes c in
    let (mod_name, name) = names_of tp_name old.mod_name in
    let k = record old {
      bases = or_nil bs;
      slots =
          inherit_slots true e.gobject_slots e.object_slots
            (elim bs [ none ↦ none | some l ↦ some (map (λ b. (w.classes b).slots) l) ]) old.slots;
    } in
    if not (e.ready t)
    then not_ready (record w { classes = update w.classes c k })
    else (if t == 0
        then registered
            (record w {
              classes = update w.classes c (record k { mod_name = mod_name; name = name });
            })
            (name, c)
        else registered
            (record w {
              classes =
                  update w.classes c (record k { mod_name = mod_name; name = name; gtype = t });
              class_of = update w.class_of t (some c);
            })
            (name, c))

-- `mro` is the method resolution order of a class.
unfoldable pub register_class :
    ℕ
    → Env
    → (List ℕ → Slots)
    → (ℕ → List ℕ)
    → CString
    → ℕ
    → ℕ
    → Option (List ℕ)
    → World
    → Registered
unfolding type_get_bases merge_bases set_up_class
register_class fuel e python_slots mro tp_name t c static_bases w =
    let (runtime_bases, w') = type_get_bases (lookup_class fuel e python_slots) e t w in
    elim runtime_bases [
      | no_fuel ↦ exhausted
      | no_bases ↦ elim (merge_bases mro static_bases no_bases) [
        | none ↦ crashed
        | some bs ↦ set_up_class e tp_name t c bs w'
      ]
      | bases rs ↦ elim (merge_bases mro static_bases (bases rs)) [
        | none ↦ crashed
        | some bs ↦ set_up_class e tp_name t c bs w'
      ]
    ]

contains-append :
    (b : ℕ) (xs ys : List ℕ) → contains b (xs ++ ys) ≡ (contains b xs || contains b ys)
unfolding contains
contains-append b [] ys = refl
contains-append b (x ∷ xs) ys = ground (arith, contains-append b xs ys)

contains_one : (r b : ℕ) → contains b (r ∷ []) ≡ (r == b)
unfolding contains
contains_one r b = ground arith

same_contains : (r b : ℕ) (ys : List ℕ) → (r == b) ≡ true → contains r ys ≡ contains b ys
same_contains r b ys same = ap (λ k. contains k ys) ((==_iff r b).0 same)

add_one :
    (mro xs : List ℕ) (r b : ℕ)
    → contains b (if contains r xs || contains r mro then xs else xs ++ r ∷ [])
      ≡ (contains b xs || ((r == b) && not (contains b mro)))
add_one mro xs r b = elim (Bool-cases (r == b)) [
  | inl same ↦ ground (
    arith,
    same,
    same_contains r b xs same,
    same_contains r b mro same,
    contains-append b xs (r ∷ []),
    contains_one r b,
  )
  | inr other ↦ ground (arith, other, contains-append b xs (r ∷ []), contains_one r b)
]

-- What the loop makes of a list of bases: it has a class just if the list has it, or the class is a
-- runtime base that is not in the method resolution order of the first base.
pub add_missing_lem :
    (mro bs xs : List ℕ) (b : ℕ)
    → contains b (add_missing mro bs xs)
      ≡ (contains b xs || (contains b bs && not (contains b mro)))
unfolding add_missing contains
add_missing_lem mro [] xs b = ground arith
add_missing_lem mro (r ∷ bs) xs b = ground (
  arith,
  add_missing_lem mro bs (if contains r xs || contains r mro then xs else xs ++ r ∷ []) b,
  add_one mro xs r b,
)
