-- ===== src/Registration/Interfaces.antt =====
-- The two passes over the bases of a class in pyg_type_register of gobject/gobjectmodule.c.
use debian_pygobject.Base.{
  ℕ, suc, ◌≡◌, refl, ap, ◌∙◌, Bool, true, false, not, ◌&&◌, List, [], ◌∷◌, ◌==◌, if◌then◌else◌,
  arith, times, ==_iff,
}
use debian_pygobject.Registration.{Base, other_base, interface_base, is_wanted, add_interfaces}

-- How often an interface stands among the bases, if it is one and can be implemented in Python.
abbrev pub implemented : (ℕ → Bool) → ℕ → List Base → ℕ
implemented has_info v [] = 0
implemented has_info v (other_base ∷ bs) = implemented has_info v bs
implemented has_info v (interface_base t is_interface ∷ bs) =
    let rest = implemented has_info v bs in
    if (is_interface && has_info t) && (t == v) then suc rest else rest

times-if :
    (b : Bool) (t v : ℕ) (xs : List ℕ)
    → times v (if b then t ∷ xs else xs) ≡ (if b && (t == v) then suc (times v xs) else times v xs)
times-if true t v xs = refl
times-if false t v xs = refl

same_answer : (f : ℕ → Bool) (t v : ℕ) → (t == v) ≡ true → f t ≡ f v
same_answer f t v e = ap f ((==_iff t v).0 e)

-- Of the two passes, the first adds the interfaces of the parent type and the second the others: each
-- interface that a base stands for is added as often as it is one, in one of the passes.
pub add_interfaces-times :
    (is_parents has_info : ℕ → Bool) (v : ℕ) (bs : List Base)
    → (times v (add_interfaces false is_parents has_info bs)
        ≡ (if is_parents v then implemented has_info v bs else 0))
      × (times v (add_interfaces true is_parents has_info bs)
          ≡ (if is_parents v then 0 else implemented has_info v bs))
unfolding add_interfaces is_wanted
add_interfaces-times is_parents has_info v [] = ground arith
add_interfaces-times is_parents has_info v (other_base ∷ bs) =
    add_interfaces-times is_parents has_info v bs
add_interfaces-times is_parents has_info v (interface_base t is_interface ∷ bs) =
    let (old, new) = add_interfaces-times is_parents has_info v bs in
    (
      times-if (is_interface && is_parents t && has_info t) t v
            (add_interfaces false is_parents has_info bs)
          ∙ ground (arith, old, same_answer is_parents t v),
      times-if (is_interface && not (is_parents t) && has_info t) t v
            (add_interfaces true is_parents has_info bs)
          ∙ ground (arith, new, same_answer is_parents t v),
    )
