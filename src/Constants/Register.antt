-- ===== src/Constants/Register.antt =====
-- The loop that makes one constant for each value of a class, in pyg_enum_add and pyg_flags_add.
use debian_pygobject.Base.{ℕ, Option, none, some, List, [], ◌∷◌, CString}
use debian_pygobject.Constants.{
  ValueInfo, Dict, World, exported_constant, Result, ok, err, out_of_bounds, ◌>>=◌, alloc, incref,
  set_item,
}
use debian_pygobject.Constants.Prefix.{strip_prefix}

-- `if (module) { … }` behind each constant: the module takes over the reference that `tp_alloc`
-- gave, and one more is taken.
unfoldable pub export_constant : Option CString → CString → ValueInfo → ℕ → World → Result World
export_constant none prefix v a w = ok w
export_constant (some m) prefix v a w = elim (strip_prefix v.value_name prefix) [
  | none ↦ err out_of_bounds
  | some name ↦ ok (incref a (record w { exports = (name, exported_constant a) ∷ w.exports }))
]

unfoldable pub register_values :
    ℕ → Option CString → CString → List ValueInfo → Dict → World → Result (Dict × World)
unfolding export_constant
register_values gtype module_ prefix [] d w = ok (d, w)
register_values gtype module_ prefix (v ∷ vs) d w =
    let a = w.next in
    let (d', w') = set_item v.value a d (alloc v.value gtype w) in
    do w'' ← export_constant module_ prefix v a w'; register_values gtype module_ prefix vs d' w''
