-- ===== src/Wrapper/Release.antt =====
-- The end of a wrapper keeps the invariant: it gives back the one reference that it holds.
use debian_pygobject.Base.{ℕ, ◌-◌, inl, inr, Bool, true, false, ◌==◌, arith, Bool-cases}
use debian_pygobject.Wrapper.{
  World, get_inst_data, clear, dealloc, py_decref, toggle_notify, set_wrapper,
}
use debian_pygobject.Wrapper.Invariant.{IsSound}
use debian_pygobject.Wrapper.Attach.{py_incref-IsSound}

-- What changes no wrapper's tie, and makes no call.
pub set_refs-IsSound :
    (w n : ℕ) (W : World)
    → IsSound W
    → IsSound (set_wrapper w (record (W.wrappers w) { refs = n }) W)
unfolding set_wrapper
set_refs-IsSound w n W s = record {
  tied = λ o v e. ground (arith, s.tied o v);
  back = λ v o e. ground (arith, s.back v o);
  flag = λ v. ground (arith, s.flag v);
  fresh = λ v le. ground (arith, s.fresh v);
  balance = λ o. ground (arith, s.balance o);
  toggle_balance = λ o. ground (arith, s.toggle_balance o);
}

pub get_inst_data-IsSound : (w : ℕ) (W : World) → IsSound W → IsSound (get_inst_data w W)
unfolding get_inst_data
get_inst_data-IsSound w W s = record {
  tied = λ o v. ground (arith, s.tied o v);
  back = λ v o. ground (arith, s.back v o);
  flag = λ v. ground (arith, s.flag v);
  fresh = λ v le. ground (arith, s.fresh v);
  balance = λ o. ground (arith, s.balance o);
  toggle_balance = λ o. ground (arith, s.toggle_balance o);
}

pub clear-IsSound : (w : ℕ) (W : World) → IsSound W → IsSound (clear w W)
unfolding clear
clear-IsSound w W s = record {
  tied = λ o v. ground (arith, s.tied o v, s.back w o);
  back = λ v o. ground (arith, s.back v o, s.back w o);
  flag = λ v. ground (arith, s.flag v);
  fresh = λ v le. ground (arith, s.fresh v);
  balance = λ o. ground (arith, s.balance o, s.flag w, s.back w o, s.tied o w);
  toggle_balance = λ o. ground (arith, s.toggle_balance o, s.flag w, s.back w o, s.tied o w);
}

pub dealloc-IsSound : (w : ℕ) (W : World) → IsSound W → IsSound (dealloc w W)
unfolding dealloc
dealloc-IsSound w W s = set_refs-IsSound w 0 _ (clear-IsSound w _ (get_inst_data-IsSound w W s))

pub py_decref-IsSound : (w : ℕ) (W : World) → IsSound W → IsSound (py_decref w W)
unfolding py_decref
py_decref-IsSound w W s = elim (Bool-cases ((W.wrappers w).refs == 1)) [
  | inl last ↦ rw (last, py_decref) (dealloc-IsSound w W s)
  | inr more ↦ rw (more, py_decref) (set_refs-IsSound w ((W.wrappers w).refs - 1) W s)
]

pub toggle_notify-IsSound :
    (is_last_ref : Bool) (w : ℕ) (W : World) → IsSound W → IsSound (toggle_notify is_last_ref w W)
unfolding toggle_notify
toggle_notify-IsSound true w W s = py_decref-IsSound w W s
toggle_notify-IsSound false w W s = py_incref-IsSound w W s
