-- ===== src/Classes/Again.antt =====
-- That pygobject_lookup_class finds a class again.
use mathlib.Core.Path.{subst}
use debian_pygobject.Base.{
  ℕ, suc, ◌≡◌, refl, sym, false, none, some, List, ◌==◌, ==_refl, arith, Bool-cases, Option-cases,
  inl, inr,
}
use debian_pygobject.Slots.{Slots}
use debian_pygobject.Classes.{
  World, Env, Looked, looked, null_dereference, out_of_fuel, Bases, bases, no_bases, no_fuel,
  add_attribute, make_class, type_get_bases, new_with_interfaces, keep_class, known_class,
  lookup_class, kept_class, drop_custom,
}

-- No function is registered for the name of a type.
abbrev pub NoCustom : Env → ℕ → World → Type 0
NoCustom e t w = w.custom (e.type_name t) ≡ none

-- A class that was found for a type is known afterwards.
abbrev FoundAgain : Env → ℕ → Looked × World → Type 0
FoundAgain e t (looked (some c), v) = NoCustom e t v → known_class e t v ≡ some c
FoundAgain e t (l, v) = Unit {0}

unknown_other :
    (e : Env) (t : ℕ) (w : World) → known_class e t w ≡ none → (t == e.interface_gtype) ≡ false
unfolding known_class
unknown_other e t w h = ground (arith, h)

class_of-known :
    (e : Env) (t c : ℕ) (v : World)
    → (t == e.interface_gtype) ≡ false
    → v.class_of t ≡ some c
    → NoCustom e t v
    → known_class e t v ≡ some c
unfolding known_class kept_class
class_of-known e t c v root h custom = rw (root, custom, known_class, h, kept_class) refl

undropped : (e : Env) (t : ℕ) (w : World) → NoCustom e t w → drop_custom e t w ≡ w
unfolding drop_custom
undropped e t w plain = elim (Bool-cases (t == e.interface_gtype)) [
  | inl root ↦ rw (root, drop_custom)
  | inr below ↦ rw (below, plain, drop_custom)
]

module _ (e : Env) (python_slots : List ℕ → Slots) (t : ℕ)
    (root : (t == e.interface_gtype) ≡ false) where
  make_class-FoundAgain :
      (bs : List ℕ) (w : World) → FoundAgain e t (keep_class t (make_class e python_slots t bs w))
  unfolding make_class keep_class add_attribute
  make_class-FoundAgain bs w = elim (Bool-cases (e.creates t)) [
    | inr fails ↦ rw (fails, make_class) tt
    | inl made ↦ elim (Bool-cases (e.ready t)) [
      | inr fails ↦ rw (made, fails, make_class) tt
      | inl ready ↦
          rw (made, ready, make_class) (class_of-known e t w.next _ root (rw (==_refl t) refl))
    ]
  ]

  with_bases-FoundAgain :
      (b : Bases) (v : World)
      → FoundAgain e t (
          keep_class t (elim b as (λ x. Looked × World) [
            | bases bs ↦ make_class e python_slots t bs v
            | no_bases ↦ (null_dereference, v)
            | no_fuel ↦ (out_of_fuel, v)
          ]))
  unfolding keep_class
  with_bases-FoundAgain (bases bs) v = make_class-FoundAgain bs v
  with_bases-FoundAgain no_bases v = tt
  with_bases-FoundAgain no_fuel v = tt

lookup_class-FoundAgain :
    (fuel : ℕ) (e : Env) (python_slots : List ℕ → Slots) (t : ℕ) (w : World)
    → NoCustom e t w
    → FoundAgain e t (lookup_class fuel e python_slots t w)
unfolding lookup_class new_with_interfaces
lookup_class-FoundAgain Prim.Native.Nat.zero e python_slots t w plain = tt
lookup_class-FoundAgain (suc fuel) e python_slots t w plain =
    elim (Option-cases (known_class e t w)) [
      | inr (c, known) ↦
          rw (known, lookup_class)
            (λ n. subst (λ u. known_class e t u ≡ some c) (sym (undropped e t w plain)) known)
      | inl unknown ↦
          let look = lookup_class fuel e python_slots in
          rw (unknown, lookup_class)
            (with_bases-FoundAgain e python_slots t (unknown_other e t w unknown)
              (type_get_bases look e t (drop_custom e t w)).0
              (type_get_bases look e t (drop_custom e t w)).1)
    ]

-- While no function is registered for the name of the type, before the lookup and behind it: if a
-- lookup gives a class, the next lookup of the type gives the same class and changes nothing.
pub lookup_class-again :
    (fuel m : ℕ) (e : Env) (python_slots : List ℕ → Slots) (t c : ℕ) (w v : World)
    → NoCustom e t w
    → NoCustom e t v
    → lookup_class fuel e python_slots t w ≡ (looked (some c), v)
    → lookup_class (suc m) e python_slots t v ≡ (looked (some c), v)
unfolding lookup_class
lookup_class-again fuel m e python_slots t c w v before behind h =
    let found = subst (FoundAgain e t) h (lookup_class-FoundAgain fuel e python_slots t w before) in
    let known : known_class e t v ≡ some c = found behind in
    rw (known, lookup_class, undropped e t v behind) refl
