-- ===== src/Constants/Sizes.antt =====
-- How many entries the dict of a class has: one for each value, if no two values are equal, and
-- fewer otherwise.
use debian_pygobject.Base.{
  ℕ, ◌+◌, ◌≤◌, ◌<◌, ◌≡◌, inl, inr, Bool, true, false, not, ◌&&◌, Option, none, List, [], ◌∷◌, arith,
  Bool-cases, length, is_some, CString,
}
use debian_pygobject.CInt.{ℤ, zeq, zeq_iff, zeq_refl}
use debian_pygobject.Constants.{ValueInfo, Dict, World, ok, get_item, put_item}
use debian_pygobject.Constants.Register.{register_values}
use debian_pygobject.Constants.Registered.{
  has_value, get_item-put_item, length-put_item, length-put_item_new, register_values-cons,
}

-- No two values are equal.
abbrev pub distinct : List ValueInfo → Bool
distinct [] = true
distinct (i ∷ is) = not (has_value i.value is) && distinct is

-- No value is a key.
abbrev Fresh : List ValueInfo → Dict → Type 0
Fresh vs d = (k : ℤ) → has_value k vs ≡ true → get_item k d ≡ none

length-put_item_old :
    (k : ℤ) (a : ℕ) (d : Dict) → is_some (get_item k d) ≡ true → length (put_item k a d) ≡ length d
unfolding put_item get_item
length-put_item_old k a [] h = cc
length-put_item_old k a ((i, b) ∷ d) h = ground (arith, length-put_item_old k a d)

module _ (t : ℕ) (m : Option CString) (p : CString) where
  length-nil :
      (d : Dict) (w : World) {r : Dict × World}
      → register_values t m p [] d w ≡ ok r
      → length r.0 ≡ length d
  unfolding register_values
  length-nil d w e = ground arith

  pub length-register_distinct :
      (vs : List ValueInfo) (d : Dict) (w : World) {r : Dict × World}
      → register_values t m p vs d w ≡ ok r
      → distinct vs ≡ true
      → Fresh vs d
      → length r.0 ≡ length vs + length d
  length-register_distinct [] d w e u f = omega (arith, length-nil d w e)
  length-register_distinct (v ∷ vs) d w {r} e u f =
      let (w₁, _, rest) = register_values-cons t m p v vs d w e in
      let fresh : Fresh vs (put_item v.value w.next d) =
        λ k h. ground (arith, get_item-put_item k v.value w.next d, zeq_iff v.value k, f k) in
      let size =
        length-register_distinct vs (put_item v.value w.next d) w₁ rest (ground arith) fresh in
      omega (
        arith,
        size,
        length-put_item_new v.value w.next d (f v.value (ground (arith, zeq_refl v.value))),
      )

  length-register-le :
      (vs : List ValueInfo) (d : Dict) (w : World) {r : Dict × World}
      → register_values t m p vs d w ≡ ok r
      → length r.0 ≤ length vs + length d
  length-register-le [] d w e = omega (arith, length-nil d w e)
  length-register-le (v ∷ vs) d w e =
      let (w₁, _, rest) = register_values-cons t m p v vs d w e in
      omega (
        arith,
        length-register-le vs (put_item v.value w.next d) w₁ rest,
        length-put_item v.value w.next d,
      )

  -- A value that is a key already adds no entry.
  length-register_collision :
      (vs : List ValueInfo) (d : Dict) (w : World) (k : ℤ) {r : Dict × World}
      → register_values t m p vs d w ≡ ok r
      → is_some (get_item k d) ≡ true
      → has_value k vs ≡ true
      → length r.0 < length vs + length d
  length-register_collision [] d w k e old new = cc
  length-register_collision (v ∷ vs) d w k e old new =
      let (w₁, _, rest) = register_values-cons t m p v vs d w e in
      let smaller = length-register-le vs (put_item v.value w.next d) w₁ rest in
      elim (Bool-cases (zeq v.value k)) [
        | inl same ↦ omega (
          arith,
          smaller,
          length-put_item_old v.value w.next d (rw ((zeq_iff v.value k).0 same) old),
        )
        | inr other ↦
            let there : is_some (get_item k (put_item v.value w.next d)) ≡ true =
              rw (get_item-put_item k v.value w.next d, other) old in
            let later : has_value k vs ≡ true = ground arith in
            omega (
              arith,
              length-register_collision vs (put_item v.value w.next d) w₁ k rest there later,
              length-put_item v.value w.next d,
            )
      ]

  pub length-register_duplicate :
      (vs : List ValueInfo) (d : Dict) (w : World) {r : Dict × World}
      → register_values t m p vs d w ≡ ok r
      → distinct vs ≡ false
      → length r.0 < length vs + length d
  length-register_duplicate [] d w e u = cc
  length-register_duplicate (v ∷ vs) d w e u =
      let (w₁, _, rest) = register_values-cons t m p v vs d w e in
      let grown = length-put_item v.value w.next d in
      let there : is_some (get_item v.value (put_item v.value w.next d)) ≡ true =
        rw (get_item-put_item v.value v.value w.next d, zeq_refl v.value) in
      elim (Bool-cases (has_value v.value vs)) [
        | inl again ↦ omega (
          arith,
          length-register_collision vs (put_item v.value w.next d) w₁ v.value rest there again,
          grown,
        )
        | inr once ↦ omega (
          arith,
          length-register_duplicate vs (put_item v.value w.next d) w₁ rest (ground arith),
          grown,
        )
      ]
