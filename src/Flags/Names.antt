-- ===== src/Flags/Names.antt =====
-- The names of a flags value: the `value_names` list and the text of `repr`.
use debian_pygobject.Base.{
  ◌≡◌, refl, ◌∙◌, ap, inl, inr, Option, none, some, List, [], ◌∷◌, ◌++◌, Bool-cases, CString, codes,
  if◌then◌else◌,
}
use mathlib.Core.List.{append_assoc, append-nil}
use debian_pygobject.CInt.{ℤ, pos, zeq, to_int, InInt, to_int-InInt}
use debian_pygobject.Constants.{ValueInfo, Constant, TypeSystem}
use debian_pygobject.Flags.{has_flag, repr_loop, generate_repr, collect}

-- The values of a class that are not 0.
abbrev pub nonzero_values : List ValueInfo → List ValueInfo
nonzero_values [] = []
nonzero_values (i ∷ is) = if zeq i.value (pos 0) then nonzero_values is else i ∷ nonzero_values is

-- Names set apart by " | "; the null pointer stands for no name.
abbrev pub behind : List CString → CString
behind [] = []
behind (n ∷ ns) = codes " | " ++ (n ++ behind ns)

abbrev pub separated : List CString → Option CString
separated [] = none
separated (n ∷ ns) = some (n ++ behind ns)

abbrev pub names : ℤ → List ValueInfo → List CString
names value is = collect (λ i. i.value_name) value (nonzero_values is)

repr_loop-some :
    (value : ℤ) (is : List ValueInfo) (s : CString)
    → repr_loop value is (some s) ≡ some (s ++ behind (names value is))
unfolding repr_loop collect
repr_loop-some value [] s = rw (append-nil s)
repr_loop-some value (i ∷ is) s = elim (Bool-cases (zeq i.value (pos 0))) [
  | inl z ↦ rw z (repr_loop-some value is s)
  | inr z ↦ elim (Bool-cases (has_flag value i.value)) [
    | inl f ↦
        rw (z, f)
          (repr_loop-some value is (s ++ (codes " | " ++ i.value_name))
            ∙ ap some (append_assoc s (codes " | " ++ i.value_name) _))
    | inr f ↦ rw (z, f) (repr_loop-some value is s)
  ]
]

repr_loop-none :
    (value : ℤ) (is : List ValueInfo) → repr_loop value is none ≡ separated (names value is)
unfolding repr_loop collect
repr_loop-none value [] = refl
repr_loop-none value (i ∷ is) = elim (Bool-cases (zeq i.value (pos 0))) [
  | inl z ↦ rw z (repr_loop-none value is)
  | inr z ↦ elim (Bool-cases (has_flag value i.value)) [
    | inl f ↦ rw (z, f) (repr_loop-some value is i.value_name)
    | inr f ↦ rw (z, f) (repr_loop-none value is)
  ]
]

-- The text of `repr` lists, in the order of the class and set apart by " | ", the names in
-- `value_names` of the values that are not 0.
pub generate_repr_lem :
    (ts : TypeSystem) (c : Constant)
    → InInt c.ival
    → generate_repr ts c.gtype (to_int c.ival) ≡ separated (names c.ival (ts.class_values c.gtype))
unfolding generate_repr
generate_repr_lem ts c h =
    rw (to_int-InInt c.ival h) (repr_loop-none c.ival (ts.class_values c.gtype))
