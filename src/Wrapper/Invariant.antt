-- ===== src/Wrapper/Invariant.antt =====
-- The references that the wrappers hold, counted over the calls made to GLib, and the invariant that
-- every operation keeps while no object has a floating reference or a sink function.
use debian_pygobject.Base.{
  ℕ, suc, ◌+◌, ◌≤◌, ◌≡◌, ◌&&◌, none, some, List, [], ◌∷◌, ◌==◌, if◌then◌else◌, is_some,
}
use debian_pygobject.Wrapper.{
  Call, g_object_ref, g_object_unref, g_object_newv, add_toggle_ref, remove_toggle_ref, World,
}

abbrev pub taken : ℕ → List Call → ℕ
taken o [] = 0
taken o (g_object_ref p ∷ cs) = if p == o then suc (taken o cs) else taken o cs
taken o (g_object_newv p ∷ cs) = if p == o then suc (taken o cs) else taken o cs
taken o (c ∷ cs) = taken o cs

abbrev pub dropped : ℕ → List Call → ℕ
dropped o [] = 0
dropped o (g_object_unref p ∷ cs) = if p == o then suc (dropped o cs) else dropped o cs
dropped o (c ∷ cs) = dropped o cs

abbrev pub added : ℕ → List Call → ℕ
added o [] = 0
added o (add_toggle_ref p w ∷ cs) = if p == o then suc (added o cs) else added o cs
added o (c ∷ cs) = added o cs

abbrev pub removed : ℕ → List Call → ℕ
removed o [] = 0
removed o (remove_toggle_ref p w ∷ cs) = if p == o then suc (removed o cs) else removed o cs
removed o (c ∷ cs) = removed o cs

-- The plain and the toggle references to an object that its wrapper holds.
abbrev pub plain : World → ℕ → ℕ
plain W o = elim (W.wrapper_of o) [ none ↦ 0 | some w ↦ if (W.wrappers w).toggle then 0 else 1 ]

abbrev pub toggled : World → ℕ → ℕ
toggled W o = elim (W.wrapper_of o) [ none ↦ 0 | some w ↦ if (W.wrappers w).toggle then 1 else 0 ]

pub record IsSound (W : World) : Type 0 where
  -- an object has one wrapper at most, and the two point at each other
  pub tied : (o w : ℕ) → W.wrapper_of o ≡ some w → (W.wrappers w).obj ≡ some o
  pub back : (w o : ℕ) → (W.wrappers w).obj ≡ some o → W.wrapper_of o ≡ some w
  -- a toggle reference is held exactly while there are both an object and a dictionary
  pub flag :
      (w : ℕ) → (W.wrappers w).toggle ≡ ((W.wrappers w).inst_dict && is_some (W.wrappers w).obj)
  -- addresses that were not given out hold no wrapper
  pub fresh : (w : ℕ) → W.next ≤ w → (W.wrappers w).obj ≡ none
  -- what was taken and not dropped is what the wrapper of the object holds
  pub balance : (o : ℕ) → taken o W.calls ≡ dropped o W.calls + plain W o
  pub toggle_balance : (o : ℕ) → added o W.calls ≡ removed o W.calls + toggled W o
