-- ===== src/Values/Lookup.antt =====
-- pyg_type_lookup and pyg_register_gtype_custom of gobject/pygtype.c: conversion functions that are
-- attached to a type, and found again from the types that derive from it.
use mathlib.Core.Path.{subst}
use debian_pygobject.Base.{
  ℕ, suc, ◌<◌, ◌≡◌, sym, false, Option, none, some, ◌==◌, if◌then◌else◌, update, arith, Bool-cases,
  Option-cases, inl, inr, ==_iff,
}
use debian_pygobject.Values.{Glib, Marshals}

-- The loop over the parents; the fuel is the number of types that it may look at, and the outer
-- `none` that it was not enough.
unfoldable pub type_lookup : ℕ → Glib → Marshals → ℕ → Option (Option ℕ)
type_lookup Prim.Native.Nat.zero g m t = none
type_lookup (suc fuel) g m t =
    let rest = type_lookup fuel g m (g.parent t) in
    if t == 0 then some none else elim (m.attached t) [ none ↦ rest | some tm ↦ some (some tm) ]

-- `tm` is the address of the two functions.
unfoldable pub register_gtype_custom : ℕ → ℕ → Marshals → Marshals
register_gtype_custom t tm m = record m { attached = update m.attached t (some tm) }

-- The functions of the nearest type on the way up that has some; `none` beyond the root.
pub data Nearest (g : Glib) (m : Marshals) : ℕ → Option ℕ → Type 0 where
  beyond : Nearest g m 0 none
  own : {t tm : ℕ} → (t == 0) ≡ false → m.attached t ≡ some tm → Nearest g m t (some tm)
  inherited :
      {t : ℕ} {r : Option ℕ}
      → (t == 0) ≡ false
      → m.attached t ≡ none
      → Nearest g m (g.parent t) r
      → Nearest g m t r

-- The types form trees: the way up gets shorter at each step.
abbrev pub Climbs : Glib → (ℕ → ℕ) → Type 0
Climbs g rank = (t : ℕ) → (t == 0) ≡ false → rank (g.parent t) < rank t

not_below_zero : (n : ℕ) → n < 0 → ⊥
not_below_zero n h = omega arith

-- Where the way up from a type ends, with fuel for each type on it, the lookup ends, and finds the
-- functions of the nearest type that has some.
pub type_lookup-Nearest :
    (g : Glib) (m : Marshals) (rank : ℕ → ℕ)
    → Climbs g rank
    → (fuel t : ℕ) → rank t < fuel
    → (r : Option ℕ) × (type_lookup fuel g m t ≡ some r) × Nearest g m t r
unfolding type_lookup
type_lookup-Nearest g m rank up Prim.Native.Nat.zero t h = elim (not_below_zero (rank t) h) [ ]
type_lookup-Nearest g m rank up (suc fuel) t h = elim (Bool-cases (t == 0)) [
  | inl e ↦
      (none, rw (e, type_lookup), subst (λ k. Nearest g m k none) (sym ((==_iff t 0).0 e)) beyond)
  | inr e ↦ elim (Option-cases (m.attached t)) [
    | inl none_here ↦
        let (r, found, near) =
          type_lookup-Nearest g m rank up fuel (g.parent t) (omega (arith, h, up t e)) in
        (r, rw (e, none_here, type_lookup) found, inherited e none_here near)
    | inr (tm, here) ↦ (some tm, rw (e, here, type_lookup), own e here)
  ]
]
