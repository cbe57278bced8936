-- ===== src/Constants/Registered.antt =====
-- What the loop of pyg_enum_add and pyg_flags_add leaves behind: a dict that has one constant for
-- each value of the class.
use debian_pygobject.Base.{
  ℕ, suc, ◌+◌, ◌≤◌, ◌<◌, ◌≡◌, refl, Bool, false, ◌||◌, Option, none, some, List, [], ◌∷◌, arith,
  if◌then◌else◌, Bool-cases, Option-cases, length, is_some, CString,
}
use debian_pygobject.CInt.{ℤ, zeq, zeq_iff}
use debian_pygobject.Constants.{
  ValueInfo, Dict, World, ok, alloc, incref, decref, get_item, put_item, set_item, >>=-eq-ok,
}
use debian_pygobject.Constants.Register.{export_constant, register_values}

-- Whether a class has the value.
abbrev pub has_value : ℤ → List ValueInfo → Bool
has_value k [] = false
has_value k (i ∷ is) = zeq i.value k || has_value k is

-- Each entry of the dict is a constant with the entry's key for its value, at an old address.
abbrev pub Holds : ℕ → Dict → World → Type 0
Holds t d w =
    (k : ℤ) (a : ℕ)
    → get_item k d ≡ some a
    → (w.constants a ≡ some (record { ival = k; gtype = t })) × (a < w.next)

pub get_item-put_item :
    (j k : ℤ) (a : ℕ) (d : Dict)
    → get_item j (put_item k a d) ≡ (if zeq k j then some a else get_item j d)
unfolding get_item put_item
get_item-put_item j k a [] = refl
get_item-put_item j k a ((i, b) ∷ d) =
    ground (arith, zeq_iff i k, zeq_iff i j, zeq_iff k j, get_item-put_item j k a d)

pub length-put_item : (k : ℤ) (a : ℕ) (d : Dict) → length (put_item k a d) ≤ suc (length d)
unfolding put_item
length-put_item k a [] = omega arith
length-put_item k a ((i, b) ∷ d) = ground (arith, length-put_item k a d)

pub length-put_item_new :
    (k : ℤ) (a : ℕ) (d : Dict) → get_item k d ≡ none → length (put_item k a d) ≡ suc (length d)
unfolding put_item get_item
length-put_item_new k a [] h = refl
length-put_item_new k a ((i, b) ∷ d) h = ground (arith, length-put_item_new k a d)

set_item-Holds :
    (v : ℤ) (t : ℕ) (d : Dict) (w : World)
    → Holds t d w
    → (let (d', w') = set_item v w.next d (alloc v t w) in Holds t d' w')
unfolding set_item alloc incref decref
set_item-Holds v t d w h k a g =
    ground (arith, get_item-put_item k v w.next d, zeq_iff v k, h k a, Option-cases (get_item v d))

-- One round of the loop, taken apart.
pub register_values-cons :
    (t : ℕ) (m : Option CString) (p : CString) (v : ValueInfo) (vs : List ValueInfo) (d : Dict)
    (w : World) {r : Dict × World}
    → register_values t m p (v ∷ vs) d w ≡ ok r
    → (w' : World) × (export_constant m p v w.next (set_item v.value w.next d (alloc v.value t w)).1
        ≡ ok w')
      × (register_values t m p vs (put_item v.value w.next d) w' ≡ ok r)
unfolding register_values set_item
register_values-cons t m p v vs d w h =
    >>=-eq-ok (export_constant m p v w.next (set_item v.value w.next d (alloc v.value t w)).1) _ h

-- Exporting a constant leaves the objects alone.
export_constant-constants :
    (m : Option CString) (p : CString) (v : ValueInfo) (a : ℕ) (w : World) {w' : World}
    → export_constant m p v a w ≡ ok w'
    → (w'.constants ≡ w.constants) × (w'.next ≡ w.next)
unfolding export_constant incref
export_constant-constants m p v a w h = ground arith

-- The keys of the dict are the values of the class, and each entry is the constant for its key.
pub record Registered (t : ℕ) (vs : List ValueInfo) (d d' : Dict) (w' : World) : Type 0 where
  pub holds : Holds t d' w'
  pub keys : (k : ℤ) → is_some (get_item k d') ≡ (has_value k vs || is_some (get_item k d))
  pub size : length d' ≤ length vs + length d

-- The loop at its end, and one round of it.
Registered-nil :
    (t : ℕ) (m : Option CString) (p : CString) (d d' : Dict) (w w' : World)
    → Holds t d w
    → register_values t m p [] d w ≡ ok (d', w')
    → Registered t [] d d' w'
unfolding register_values
Registered-nil t m p d d' w w' h e =
    let same : d ≡ d' = cc in
    let world : w ≡ w' = cc in
    rw (← same, ← world) (record { holds = h; keys = λ k. refl; size = omega arith })

step-Holds :
    (t : ℕ) (m : Option CString) (p : CString) (v : ValueInfo) (d : Dict) (w w₁ : World)
    → Holds t d w
    → export_constant m p v w.next (set_item v.value w.next d (alloc v.value t w)).1 ≡ ok w₁
    → Holds t (put_item v.value w.next d) w₁
unfolding set_item
step-Holds t m p v d w w₁ h e k a g =
    let kept = export_constant-constants m p v w.next _ e in
    rw (kept.0, kept.1) (set_item-Holds v.value t d w h k a g)

step-Registered :
    (t : ℕ) (v : ValueInfo) (vs : List ValueInfo) (a : ℕ) (d d' : Dict) (w' : World)
    → Registered t vs (put_item v.value a d) d' w'
    → Registered t (v ∷ vs) d d' w'
step-Registered t v vs a d d' w' r = record {
  holds = r.holds;
  keys = λ k. ground (
    arith,
    r.keys k,
    get_item-put_item k v.value a d,
    Bool-cases (zeq v.value k),
    Bool-cases (has_value k vs),
  );
  size = omega (arith, r.size, length-put_item v.value a d);
}

pub register_values-Registered :
    (t : ℕ) (m : Option CString) (p : CString) (vs : List ValueInfo) (d : Dict) (w : World)
    (d' : Dict) (w' : World)
    → Holds t d w
    → register_values t m p vs d w ≡ ok (d', w')
    → Registered t vs d d' w'
register_values-Registered t m p [] d w d' w' h e = Registered-nil t m p d d' w w' h e
register_values-Registered t m p (v ∷ vs) d w d' w' h e =
    let (w₁, exported, rest) = register_values-cons t m p v vs d w e in
    step-Registered t v vs w.next d d' w' (
      register_values-Registered t m p vs (put_item v.value w.next d) w₁ d' w'
        (step-Holds t m p v d w w₁ h exported) rest)

-- Without a module the loop never fails.
pub register_values-total :
    (t : ℕ) (p : CString) (vs : List ValueInfo) (d : Dict) (w : World)
    → (r : Dict × World) × (register_values t none p vs d w ≡ ok r)
unfolding register_values
register_values-total t p [] d w = ((d, w), refl)
register_values-total t p (v ∷ vs) d w = register_values-total t p vs _ _
