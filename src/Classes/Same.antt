-- ===== src/Classes/Same.antt =====
-- That the class of a type is a class of that type.
use mathlib.Core.Path.{subst}
use debian_pygobject.Base.{
  ℕ, CString, suc, ◌<◌, ◌≡◌, refl, sym, ◌∙◌, true, false, Option, none, some, List, [], ◌∷◌, ◌==◌,
  ==_refl, ==_iff, update, arith, Bool-cases, Option-cases, inl, inr,
}
use debian_pygobject.Slots.{Slots}
use debian_pygobject.Classes.{
  Class, World, Env, Looked, looked, null_dereference, out_of_fuel, Bases, bases, no_bases, no_fuel,
  new_class, add_attribute, make_class, cons_base, lookup_all, type_get_bases, new_with_interfaces,
  keep_class, known_class, lookup_class, drop_custom,
}

-- Classes that were made for a type, or registered with it, say so, and are older than the next one.
pub record IsSound (w : World) : Type 0 where
  pub tagged : (t c : ℕ) → w.class_of t ≡ some c → (w.classes c).gtype ≡ t
  pub older : (t c : ℕ) → w.class_of t ≡ some c → c < w.next

-- A world with a class more, which is kept for its type or not, and with attributes of modules.
abbrev more : World → Class → (ℕ → Option ℕ) → List (CString × CString × ℕ) → World
more w k class_of attributes = record w {
  next = suc w.next;
  classes = update w.classes w.next k;
  class_of = class_of;
  attributes = attributes;
}

older_class :
    (w : World) (k : Class) (t c : ℕ)
    → IsSound w
    → w.class_of t ≡ some c
    → (update w.classes w.next k c).gtype ≡ t
older_class w k t c s e =
    let differ : (c == w.next) ≡ false = ground (arith, s.older t c e) in rw differ (s.tagged t c e)

made-IsSound :
    (w : World) (k : Class) (a : List (CString × CString × ℕ))
    → IsSound w
    → IsSound (more w k w.class_of a)
made-IsSound w k a s = record {
  tagged = λ t c e. older_class w k t c s e;
  older = λ t c e. omega (arith, s.older t c e);
}

kept-IsSound :
    (w : World) (t : ℕ) (k : Class) (a : List (CString × CString × ℕ))
    → k.gtype ≡ t
    → IsSound w
    → IsSound (more w k (update w.class_of t (some w.next)) a)
kept-IsSound w t k a same s = record {
  tagged = λ u c e. elim (Bool-cases (u == t)) [
    | inl here ↦
        subst (λ d. (update w.classes w.next k d).gtype ≡ u) (next_is u c here e)
          (rw (==_refl w.next) (same ∙ sym ((==_iff u t).0 here)))
    | inr other ↦ older_class w k u c s (ground (arith, e, other))
  ];
  older = λ u c e. elim (Bool-cases (u == t)) [
    | inl here ↦ omega (arith, next_is u c here e)
    | inr other ↦ omega (arith, s.older u c (ground (arith, e, other)))
  ];
}
  where
    next_is :
        (u c : ℕ) → (u == t) ≡ true → update w.class_of t (some w.next) u ≡ some c → w.next ≡ c
    next_is u c here e = ground (arith, e, here)

module _ (e : Env) (python_slots : List ℕ → Slots) where
  make_class-IsSound :
      (t : ℕ) (bs : List ℕ) (w : World) → IsSound w → IsSound (make_class e python_slots t bs w).1
  unfolding make_class add_attribute new_class
  make_class-IsSound t bs w s = elim (Bool-cases (e.creates t)) [
    | inr fails ↦ rw (fails, make_class) s
    | inl made ↦ elim (Bool-cases (e.ready t)) [
      | inr fails ↦
          rw (made, fails, make_class)
            (made-IsSound w (new_class e t bs python_slots w) w.attributes s)
      | inl ready ↦
          let k = new_class e t bs python_slots w in
          elim (Bool-cases (e.has_module k.mod_name)) [
            | inl there ↦
                rw (made, ready, make_class, there, add_attribute)
                  (kept-IsSound w t k ((k.mod_name, k.name, w.next) ∷ w.attributes) refl s)
            | inr absent ↦
                rw (made, ready, make_class, absent, add_attribute)
                  (kept-IsSound w t k w.attributes refl s)
          ]
    ]
  ]

cons_base-IsSound :
    (l : Looked) (rest : World → Bases × World) (w : World)
    → ((v : World) → IsSound v → IsSound (rest v).1)
    → IsSound w
    → IsSound (cons_base l rest w).1
unfolding cons_base
cons_base-IsSound (looked none) rest w h s = s
cons_base-IsSound (looked (some c)) rest w h s = h w s
cons_base-IsSound null_dereference rest w h s = s
cons_base-IsSound out_of_fuel rest w h s = s

keep_class-IsSound : (t : ℕ) (r : Looked × World) → IsSound r.1 → IsSound (keep_class t r).1
unfolding keep_class
keep_class-IsSound t (looked c, w) s = record { tagged = s.tagged; older = s.older }
keep_class-IsSound t (null_dereference, w) s = s
keep_class-IsSound t (out_of_fuel, w) s = s

module _ (look : ℕ → World → Looked × World)
    (sound : (t : ℕ) (w : World) → IsSound w → IsSound (look t w).1) where
  lookup_all-IsSound : (ts : List ℕ) (w : World) → IsSound w → IsSound (lookup_all look ts w).1
  unfolding lookup_all
  lookup_all-IsSound [] w s = s
  lookup_all-IsSound (t ∷ ts) w s =
      cons_base-IsSound (look t w).0 (lookup_all look ts) (look t w).1 (lookup_all-IsSound ts)
        (sound t w s)

  type_get_bases-IsSound :
      (e : Env) (t : ℕ) (w : World) → IsSound w → IsSound (type_get_bases look e t w).1
  unfolding type_get_bases
  type_get_bases-IsSound e t w s = elim (Bool-cases (t == e.object_gtype)) [
    | inl root ↦ rw (root, type_get_bases) s
    | inr below ↦ rw (below, type_get_bases) (lookup_all-IsSound (e.parent t ∷ e.interfaces t) w s)
  ]

  with_bases-IsSound :
      (e : Env) (python_slots : List ℕ → Slots) (t : ℕ) (b : Bases) (v : World)
      → IsSound v
      → IsSound
          (elim b as (λ x. Looked × World) [
            | bases bs ↦ make_class e python_slots t bs v
            | no_bases ↦ (null_dereference, v)
            | no_fuel ↦ (out_of_fuel, v)
          ]).1
  with_bases-IsSound e python_slots t (bases bs) v s = make_class-IsSound e python_slots t bs v s
  with_bases-IsSound e python_slots t no_bases v s = s
  with_bases-IsSound e python_slots t no_fuel v s = s

  new_with_interfaces-IsSound :
      (e : Env) (python_slots : List ℕ → Slots) (t : ℕ) (w : World)
      → IsSound w
      → IsSound (new_with_interfaces look e python_slots t w).1
  unfolding new_with_interfaces
  new_with_interfaces-IsSound e python_slots t w s =
      with_bases-IsSound e python_slots t (type_get_bases look e t w).0
        (type_get_bases look e t w).1 (type_get_bases-IsSound e t w s)

drop_custom-IsSound : (e : Env) (t : ℕ) (w : World) → IsSound w → IsSound (drop_custom e t w)
unfolding drop_custom
drop_custom-IsSound e t w s = elim (Bool-cases (t == e.interface_gtype)) [
  | inl root ↦ rw (root, drop_custom) s
  | inr below ↦ elim (Option-cases (w.custom (e.type_name t))) [
    | inl missing ↦ rw (below, missing, drop_custom) s
    | inr (c, there) ↦
        rw (below, there, drop_custom) (record { tagged = s.tagged; older = s.older })
  ]
]

-- A lookup keeps the classes that are kept for types in order: each has its type as `__gtype__`.
pub lookup_class-IsSound :
    (fuel : ℕ) (e : Env) (python_slots : List ℕ → Slots) (t : ℕ) (w : World)
    → IsSound w
    → IsSound (lookup_class fuel e python_slots t w).1
unfolding lookup_class
lookup_class-IsSound Prim.Native.Nat.zero e python_slots t w s = s
lookup_class-IsSound (suc fuel) e python_slots t w s = elim (Option-cases (known_class e t w)) [
  | inr (c, known) ↦ rw (known, lookup_class) (drop_custom-IsSound e t w s)
  | inl unknown ↦
      rw (unknown, lookup_class)
        (keep_class-IsSound t
          (new_with_interfaces (lookup_class fuel e python_slots) e python_slots t
            (drop_custom e t w))
          (new_with_interfaces-IsSound (lookup_class fuel e python_slots)
            (lookup_class-IsSound fuel e python_slots) e python_slots t (drop_custom e t w)
            (drop_custom-IsSound e t w s)))
]
