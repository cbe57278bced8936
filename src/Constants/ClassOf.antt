-- ===== src/Constants/ClassOf.antt =====
-- A class that was made for a type, by pyg_enum_add or by pyg_flags_add.
use debian_pygobject.Base.{
  ℕ, ◌≡◌, refl, ◌⊎◌, inl, inr, true, false, Option, none, some, [], ◌<◌, arith, Option-cases,
  CString, ==_refl, ap,
}
use debian_pygobject.CInt.{ℤ}
use debian_pygobject.Constants.{
  Dict, ConstantClass, make_class, attach_class, World, TypeSystem, ok, dict, typecode, get_item,
}
use debian_pygobject.Constants.Register.{register_values}
use debian_pygobject.Constants.Registered.{has_value, Holds, Registered, register_values-Registered}

pub record IsClassOf (ts : TypeSystem) (t : ℕ) (cls : ConstantClass) (w : World) : Type 0 where
  pub entries : Dict
  pub attr : cls.values_attr ≡ dict entries
  pub gtype : cls.gtype_attr ≡ typecode t
  pub attached : w.class_of t ≡ some cls
  pub registered : Registered t (ts.class_values t) [] entries w

no_entries : (t : ℕ) (w : World) → Holds t [] w
unfolding get_item
no_entries t w k a h = cc

pub attach-IsClassOf :
    (ts : TypeSystem) (m : Option CString) (name prefix : CString) (t : ℕ) (d : Dict) (w w₁ : World)
    (cls : ConstantClass) (w' : World)
    → register_values t m prefix (ts.class_values t) [] w ≡ ok (d, w₁)
    → attach_class (make_class name m t d) t w₁ ≡ (cls, w')
    → IsClassOf ts t cls w'
unfolding attach_class
attach-IsClassOf ts m name prefix t d w w₁ cls w' loop e =
    let r =
      register_values-Registered t m prefix (ts.class_values t) [] w d w₁ (no_entries t w) loop in
    let same = ap (λ (q : ConstantClass × World). q.0) e in
    let world = ap (λ (q : ConstantClass × World). q.1) e in
    rw (← same, ← world)
      (record {
        entries = d;
        attr = refl;
        gtype = refl;
        attached = rw (==_refl t);
        registered = record { holds = r.holds; keys = r.keys; size = r.size };
      })

-- What the dict holds for a value: the constant for it if the type has the value, else nothing.
pub entry_or_none :
    {ts : TypeSystem} {t : ℕ} {cls : ConstantClass} {w : World} (c : IsClassOf ts t cls w) (v : ℤ)
    → ((has_value v (ts.class_values t) ≡ true)
        × ((a : ℕ) × (get_item v c.entries ≡ some a)
            × (w.constants a ≡ some (record { ival = v; gtype = t }))
            × (a < w.next)))
      ⊎ ((has_value v (ts.class_values t) ≡ false) × (get_item v c.entries ≡ none))
unfolding get_item
entry_or_none c v = elim (Option-cases (get_item v c.entries)) [
  | inl e ↦ inr (ground (arith, c.registered.keys v), e)
  | inr (a, e) ↦
      let held = c.registered.holds v a e in
      inl (ground (arith, c.registered.keys v), (a, e, held.0, held.1))
]
