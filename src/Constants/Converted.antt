-- ===== src/Constants/Converted.antt =====
-- What pyg_flags_get_value makes of a tuple of names, against a lookup of every name and one union
-- of what was found; and comparison as the order of the integers.
use debian_pygobject.Base.{ℕ, ◌≡◌, ◌↔◌, true, Option, none, some, List, [], ◌∷◌, arith, CString}
use debian_pygobject.CInt.{ℤ, ◌≤ℤ◌, zeq_iff, zleb_iff, to_int, or_long}
use debian_pygobject.Constants.{ValueInfo, TypeSystem, Result, ok, err, unknown_name}
use debian_pygobject.Constants.Compare.{
  CompareOp, py_eq, py_ne, py_le, py_ge, py_lt, py_gt, integer_richcompare,
}
use debian_pygobject.Constants.Convert.{look_up}

-- Every item, looked up; `none` if one is no text or names no value.
abbrev pub all_found : TypeSystem → ℕ → List (Option CString) → Option (List ValueInfo)
all_found ts t [] = some []
all_found ts t (none ∷ xs) = none
all_found ts t (some s ∷ xs) = elim (look_up ts t s) [
  | none ↦ none
  | some i ↦ elim (all_found ts t xs) [ none ↦ none | some is ↦ some (i ∷ is) ]
]

abbrev pub union : ℤ → List ValueInfo → ℤ
union v [] = v
union v (i ∷ is) = union (to_int (or_long v i.value)) is

abbrev pub or_unknown : ℤ → Option (List ValueInfo) → Result ℤ
or_unknown v none = err unknown_name
or_unknown v (some is) = ok (union v is)

-- The order of the integers, by what each stands for.
abbrev pub Stands : CompareOp → ℤ → ℤ → Type 0
Stands py_eq v w = v ≡ w
Stands py_ne v w = ¬ (v ≡ w)
Stands py_le v w = v ≤ℤ w
Stands py_ge v w = w ≤ℤ v
Stands py_lt v w = ¬ (w ≤ℤ v)
Stands py_gt v w = ¬ (v ≤ℤ w)

-- Each of the six comparisons answers whether its relation of the two numbers holds.
pub integer_richcompare_lem :
    (op : CompareOp) (v w : ℤ) → (integer_richcompare v w op ≡ true) ↔ Stands op v w
unfolding integer_richcompare
integer_richcompare_lem py_eq v w = zeq_iff v w
integer_richcompare_lem py_ne v w = ground (arith, zeq_iff v w)
integer_richcompare_lem py_le v w = zleb_iff v w
integer_richcompare_lem py_ge v w = zleb_iff w v
integer_richcompare_lem py_lt v w = ground (arith, zleb_iff w v)
integer_richcompare_lem py_gt v w = ground (arith, zleb_iff v w)
