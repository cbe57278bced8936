-- ===== src/Closures/Traversed.antt =====
-- What the cycle collector is shown of a wrapper, as a list of objects.
use debian_pygobject.Base.{
  ℕ, ◌≡◌, refl, not, Option, none, some, List, [], ◌∷◌, ◌==◌, arith, if◌then◌else◌,
}
use debian_pygobject.Closures.{visit_field, traverse_closures, pygobject_traverse}

-- The objects of optional fields, and those of the closures.
abbrev pub held : Option ℕ → List ℕ → List ℕ
held none xs = xs
held (some x) xs = x ∷ xs

abbrev pub held_by : (ℕ → Option ℕ × Option ℕ × Option ℕ) → List ℕ → List ℕ
held_by fields [] = []
held_by fields (c ∷ cs) =
    let (callback, extra_args, swap_data) = fields c in
    held callback (held extra_args (held swap_data (held_by fields cs)))

-- The first visit that does not give 0.
abbrev pub first_stop : (ℕ → ℕ) → List ℕ → ℕ
first_stop visit [] = 0
first_stop visit (x ∷ xs) = if visit x == 0 then first_stop visit xs else visit x

first_stop-held :
    (visit : ℕ → ℕ) (x : Option ℕ) (xs : List ℕ)
    → (if not (visit_field visit x == 0) then visit_field visit x else first_stop visit xs)
      ≡ first_stop visit (held x xs)
unfolding visit_field
first_stop-held visit none xs = refl
first_stop-held visit (some x) xs = ground arith

traverse-held_by :
    (visit : ℕ → ℕ) (fields : ℕ → Option ℕ × Option ℕ × Option ℕ) (cs : List ℕ)
    → traverse_closures visit fields cs ≡ first_stop visit (held_by fields cs)
unfolding traverse_closures
traverse-held_by visit fields [] = refl
traverse-held_by visit fields (c ∷ cs) =
    let (callback, extra_args, swap_data) = fields c in
    rw (
      traverse-held_by visit fields cs,
      first_stop-held visit swap_data (held_by fields cs),
      first_stop-held visit extra_args (held swap_data (held_by fields cs)),
      first_stop-held visit callback (held extra_args (held swap_data (held_by fields cs))),
    )

-- The collector is shown the dictionary and then, for each closure of the list, the callback, the
-- arguments and the swap data that are there: the result is that of the first visit that is not 0,
-- or 0 if there is none.
pub pygobject_traverse_lem :
    (visit : ℕ → ℕ) (fields : ℕ → Option ℕ × Option ℕ × Option ℕ) (inst_dict : Option ℕ)
    (cs : List ℕ)
    → pygobject_traverse visit fields inst_dict (some cs)
      ≡ first_stop visit (held inst_dict (held_by fields cs))
unfolding pygobject_traverse
pygobject_traverse_lem visit fields inst_dict cs =
    rw (traverse-held_by visit fields cs, first_stop-held visit inst_dict (held_by fields cs))
