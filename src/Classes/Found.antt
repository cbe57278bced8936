-- ===== src/Classes/Found.antt =====
-- That pygobject_lookup_class ends, and what the class is that it finds.
use debian_pygobject.Base.{
  ap, ℕ, suc, ◌<◌, ◌≡◌, refl, Bool, true, false, none, some, List, [], ◌∷◌, ◌==◌, arith, Bool-cases,
  Option-cases, inl, inr,
}
use debian_pygobject.Slots.{Slots}
use debian_pygobject.Classes.{
  World, Env, Looked, looked, null_dereference, out_of_fuel, Bases, bases, no_bases, no_fuel,
  make_class, cons_class, cons_base, lookup_all, type_get_bases, new_with_interfaces, keep_class,
  known_class, lookup_class, drop_custom,
}

-- The lookup has an end.
abbrev pub Ends : Looked → Type 0
Ends out_of_fuel = ⊥
Ends l = Unit {0}

abbrev pub BasesEnd : Bases → Type 0
BasesEnd no_fuel = ⊥
BasesEnd b = Unit {0}

-- Every type of a list belongs to a set of types and is below a rank.
abbrev pub AllBelow : (ℕ → Bool) → (ℕ → ℕ) → ℕ → List ℕ → Type 0
AllBelow rooted rank n [] = Unit {0}
AllBelow rooted rank n (t ∷ ts) = (rooted t ≡ true) × (rank t < n) × AllBelow rooted rank n ts

-- A set of types that are below G_TYPE_OBJECT or G_TYPE_INTERFACE, without a cycle: the parent and the
-- interfaces of another type of the set belong to it and rank below the type.
abbrev pub IsRanked : (ℕ → Bool) → (ℕ → ℕ) → Env → Type 0
IsRanked rooted rank e =
    (t : ℕ)
    → rooted t ≡ true
    → (t == e.object_gtype) ≡ false
    → (t == e.interface_gtype) ≡ false
    → AllBelow rooted rank (rank t) (e.parent t ∷ e.interfaces t)

make_class-Ends :
    (e : Env) (python_slots : List ℕ → Slots) (t : ℕ) (bs : List ℕ) (w : World)
    → Ends (make_class e python_slots t bs w).0
unfolding make_class
make_class-Ends e python_slots t bs w = elim (Bool-cases (e.creates t)) [
  | inr fails ↦ rw (fails, make_class) tt
  | inl made ↦ elim (Bool-cases (e.ready t)) [
    | inr fails ↦ rw (made, fails, make_class) tt
    | inl ready ↦ rw (made, ready, make_class) tt
  ]
]

keep_class-Ends : (t : ℕ) (r : Looked × World) → Ends r.0 → Ends (keep_class t r).0
unfolding keep_class
keep_class-Ends t (looked c, w) h = tt
keep_class-Ends t (null_dereference, w) h = tt
keep_class-Ends t (out_of_fuel, w) h = h

cons_class-End : (c : ℕ) (b : Bases) → BasesEnd b → BasesEnd (cons_class c b)
unfolding cons_class
cons_class-End c (bases bs) h = tt
cons_class-End c no_bases h = tt
cons_class-End c no_fuel h = h

cons_base-End :
    (l : Looked) (rest : World → Bases × World) (w : World)
    → Ends l
    → ((v : World) → BasesEnd (rest v).0)
    → BasesEnd (cons_base l rest w).0
unfolding cons_base
cons_base-End (looked none) rest w h k = tt
cons_base-End null_dereference rest w h k = tt
cons_base-End out_of_fuel rest w h k = h
cons_base-End (looked (some c)) rest w h k = cons_class-End c (rest w).0 (k w)

module _ (look : ℕ → World → Looked × World) (rooted : ℕ → Bool) (rank : ℕ → ℕ) where
  lookup_all-End :
      (n : ℕ)
      → ((t : ℕ) (w : World) → rooted t ≡ true → rank t < n → Ends (look t w).0)
      → (ts : List ℕ) (w : World) → AllBelow rooted rank n ts
      → BasesEnd (lookup_all look ts w).0
  unfolding lookup_all
  lookup_all-End n h [] w b = tt
  lookup_all-End n h (t ∷ ts) w b =
      cons_base-End (look t w).0 (lookup_all look ts) (look t w).1 (h t w b.0 b.1)
        (λ v. lookup_all-End n h ts v b.2)

  type_get_bases-End :
      (e : Env) (t : ℕ) (w : World)
      → IsRanked rooted rank e
      → rooted t ≡ true
      → (t == e.interface_gtype) ≡ false
      → ((u : ℕ) (v : World) → rooted u ≡ true → rank u < rank t → Ends (look u v).0)
      → BasesEnd (type_get_bases look e t w).0
  unfolding type_get_bases
  type_get_bases-End e t w ranked there other h = elim (Bool-cases (t == e.object_gtype)) [
    | inl root ↦ rw (root, type_get_bases) tt
    | inr below ↦
        rw (below, type_get_bases)
          (lookup_all-End (rank t) h (e.parent t ∷ e.interfaces t) w (ranked t there below other))
  ]

module _ (e : Env) (python_slots : List ℕ → Slots) where
  with_bases-Ends :
      (t : ℕ) (b : Bases) (v : World)
      → BasesEnd b
      → Ends
          (elim b as (λ x. Looked × World) [
            | bases bs ↦ make_class e python_slots t bs v
            | no_bases ↦ (null_dereference, v)
            | no_fuel ↦ (out_of_fuel, v)
          ]).0
  with_bases-Ends t (bases bs) v k = make_class-Ends e python_slots t bs v
  with_bases-Ends t no_bases v k = tt
  with_bases-Ends t no_fuel v k = k

  unknown_other : (t : ℕ) (w : World) → known_class e t w ≡ none → (t == e.interface_gtype) ≡ false
  unfolding known_class
  unknown_other t w h = ground (arith, h)

  module _ (rooted : ℕ → Bool) (rank : ℕ → ℕ) (ranked : IsRanked rooted rank e) where
    new_with_interfaces-Ends :
        (t : ℕ) (look : ℕ → World → Looked × World) (w : World)
        → rooted t ≡ true
        → (t == e.interface_gtype) ≡ false
        → ((u : ℕ) (v : World) → rooted u ≡ true → rank u < rank t → Ends (look u v).0)
        → Ends (new_with_interfaces look e python_slots t w).0
    unfolding new_with_interfaces
    new_with_interfaces-Ends t look w there other h =
        with_bases-Ends t (type_get_bases look e t w).0 (type_get_bases look e t w).1
          (type_get_bases-End look rooted rank e t w ranked there other h)

    -- For a type below G_TYPE_OBJECT or G_TYPE_INTERFACE, and if such types have no cycle of parents and
    -- interfaces, a lookup with more fuel than the type has levels of them does not run out of fuel: it
    -- gives a class or NULL, or it reads through a null pointer.
    pub lookup_class-Ends :
        (fuel t : ℕ) (w : World)
        → rooted t ≡ true
        → rank t < fuel
        → Ends (lookup_class fuel e python_slots t w).0
    unfolding lookup_class
    lookup_class-Ends Prim.Native.Nat.zero t w there less = elim less [ ]
    lookup_class-Ends (suc fuel) t w there less = elim (Option-cases (known_class e t w)) [
      | inr (c, known) ↦ rw (known, lookup_class) tt
      | inl unknown ↦
          rw (unknown, lookup_class)
            (keep_class-Ends t
              (new_with_interfaces (lookup_class fuel e python_slots) e python_slots t
                (drop_custom e t w))
              (new_with_interfaces-Ends t (lookup_class fuel e python_slots) (drop_custom e t w)
                there (unknown_other t w unknown)
                (λ u v in_ lower. lookup_class-Ends fuel u v in_ (omega arith))))
    ]

  own_bases :
      (look : ℕ → World → Looked × World) (t : ℕ) (w : World)
      → e.parent t ≡ t
      → (t == e.object_gtype) ≡ false
      → look t w ≡ (out_of_fuel, w)
      → type_get_bases look e t w ≡ (no_fuel, w)
  unfolding type_get_bases lookup_all cons_base
  own_bases look t w loop other again = rw (other, type_get_bases, loop, again)

  own_base :
      (look : ℕ → World → Looked × World) (t : ℕ) (w : World)
      → type_get_bases look e t w ≡ (no_fuel, w)
      → new_with_interfaces look e python_slots t w ≡ (out_of_fuel, w)
  unfolding new_with_interfaces
  own_base look t w found =
      ap
        (λ (r : Bases × World). elim r.0 as (λ x. Looked × World) [
          | bases bs ↦ make_class e python_slots t bs r.1
          | no_bases ↦ (null_dereference, r.1)
          | no_fuel ↦ (out_of_fuel, r.1)
        ])
        found

  undropped : (t : ℕ) (w : World) → w.custom (e.type_name t) ≡ none → drop_custom e t w ≡ w
  unfolding drop_custom
  undropped t w plain = elim (Bool-cases (t == e.interface_gtype)) [
    | inl root ↦ rw (root, drop_custom)
    | inr below ↦ rw (below, plain, drop_custom)
  ]

  -- A type that is its own parent and is not known, as 0 is for g_type_parent, has no end of a lookup.
  pub lookup_class-endless :
      (t : ℕ) (w : World)
      → e.parent t ≡ t
      → (t == e.object_gtype) ≡ false
      → known_class e t w ≡ none
      → w.custom (e.type_name t) ≡ none
      → (fuel : ℕ) → lookup_class fuel e python_slots t w ≡ (out_of_fuel, w)
  unfolding lookup_class keep_class
  lookup_class-endless t w loop other unknown plain Prim.Native.Nat.zero = refl
  lookup_class-endless t w loop other unknown plain (suc fuel) =
      let again = lookup_class-endless t w loop other unknown plain fuel in
      rw
        (
          unknown,
          lookup_class,
          undropped t w plain,
          own_base (lookup_class fuel e python_slots) t w
              (own_bases (lookup_class fuel e python_slots) t w loop other again),
        )
        refl
