-- ===== src/Constants/Compare.antt =====
-- Comparison of constants: pyg_integer_richcompare of gobject/gobjectmodule.c.
use debian_pygobject.Base.{Bool, not}
use debian_pygobject.CInt.{ℤ, zeq, zleb}

pub data CompareOp : Type 0 where
  py_eq py_ne py_le py_ge py_lt py_gt : CompareOp

unfoldable pub integer_richcompare : ℤ → ℤ → CompareOp → Bool
unfolding zeq zleb
integer_richcompare v w py_eq = zeq v w
integer_richcompare v w py_ne = not (zeq v w)
integer_richcompare v w py_le = zleb v w
integer_richcompare v w py_ge = zleb w v
integer_richcompare v w py_lt = not (zleb w v)
integer_richcompare v w py_gt = not (zleb v w)

pub data Comparison : Type 0 where
  not_implemented : Comparison
  answer : Bool → Comparison
