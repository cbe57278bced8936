-- ===== src/Wrapper/Steps.antt =====
-- Any history of wrappers: the operations in any order, with the notifications of GLib and the
-- references of Python code between them.
use debian_pygobject.Base.{ℕ, suc, ◌≤◌, ◌≡◌, Bool, false, Option, none, some, []}
use debian_pygobject.Wrapper.{
  Env, World, new_full, alloc_wrapper, constructv, get_dict, setattro, clear, py_incref, py_decref,
  toggle_notify, get_inst_data,
}
use debian_pygobject.Wrapper.Invariant.{IsSound}
use debian_pygobject.Wrapper.Attach.{
  IsPlain, new_full-IsSound, alloc_wrapper-IsSound, constructv-IsSound, get_dict-IsSound,
  setattro-IsSound, py_incref-IsSound,
}
use debian_pygobject.Wrapper.Release.{
  clear-IsSound, py_decref-IsSound, toggle_notify-IsSound, get_inst_data-IsSound,
}

pub data Step (W : World) : World → Type 0 where
  wraps :
      (e : Env) (o : ℕ) (g_class : Option ℕ)
      → IsPlain e o W
      → Step W (new_full e (some o) g_class W).1
  allocates : (tp : ℕ) → Step W (alloc_wrapper tp W).1
  -- `__init__` of a wrapper that was allocated, with a new object
  constructs :
      (e : Env) (w o : ℕ)
      → IsPlain e o W
      → suc w ≤ W.next
      → W.wrapper_of o ≡ none
      → Step W (constructv e w o W)
  reads_dict : (w : ℕ) → Step W (get_dict w W)
  sets : (creates : Bool) (w : ℕ) → Step W (setattro creates w W)
  asks_data : (w : ℕ) → Step W (get_inst_data w W)
  -- `tp_clear`, by the cycle collector
  clears : (w : ℕ) → Step W (clear w W)
  increfs : (w : ℕ) → Step W (py_incref w W)
  decrefs : (w : ℕ) → Step W (py_decref w W)
  notifies : (is_last_ref : Bool) (w : ℕ) → Step W (toggle_notify is_last_ref w W)

pub data Reach (W : World) : World → Type 0 where
  here : Reach W W
  next : {V U : World} → Reach W V → Step V U → Reach W U

pub Step-IsSound : {W V : World} → Step W V → IsSound W → IsSound V
Step-IsSound {W} (wraps e o g p) s = new_full-IsSound e o g W p s
Step-IsSound {W} (allocates tp) s = alloc_wrapper-IsSound tp W s
Step-IsSound {W} (constructs e w o p given free) s = constructv-IsSound e w o W p given free s
Step-IsSound {W} (reads_dict w) s = get_dict-IsSound w W s
Step-IsSound {W} (sets creates w) s = setattro-IsSound creates w W s
Step-IsSound {W} (asks_data w) s = get_inst_data-IsSound w W s
Step-IsSound {W} (clears w) s = clear-IsSound w W s
Step-IsSound {W} (increfs w) s = py_incref-IsSound w W s
Step-IsSound {W} (decrefs w) s = py_decref-IsSound w W s
Step-IsSound {W} (notifies l w) s = toggle_notify-IsSound l w W s

-- No wrapper and no call yet.
pub record IsFresh (W : World) : Type 0 where
  pub no_object : (w : ℕ) → (W.wrappers w).obj ≡ none
  pub no_toggle : (w : ℕ) → (W.wrappers w).toggle ≡ false
  pub no_wrapper : (o : ℕ) → W.wrapper_of o ≡ none
  pub no_call : W.calls ≡ []
