-- ===== src/Wrapper/Attach.antt =====
-- Making a wrapper, giving it a dictionary, and counting Python references keep the invariant.
use debian_pygobject.Base.{
  ℕ, suc, ◌+◌, ◌≤◌, ◌≡◌, refl, inl, inr, Bool, true, false, Option, none, some, ◌∷◌, arith,
  Bool-cases, Option-cases, update, ==_refl,
}
use debian_pygobject.Wrapper.{
  wrapper_class, alloc_wrapper, constructv, g_object_newv, g_object_ref, Env, World, find_sinkfunc,
  pygobject_sink, py_incref, switch_to_toggle_ref, add_inst_dict, get_dict, setattro, make_wrapper,
  incref_class, place_wrapper, register_wrapper, new_full,
}
use debian_pygobject.Wrapper.Invariant.{IsSound}

pub py_incref-IsSound : (w : ℕ) (W : World) → IsSound W → IsSound (py_incref w W)
unfolding py_incref
py_incref-IsSound w W s = record {
  tied = λ o v e. ground (arith, s.tied o v);
  back = λ v o e. ground (arith, s.back v o);
  flag = λ v. ground (arith, s.flag v);
  fresh = λ v le. ground (arith, s.fresh v);
  balance = λ o. ground (arith, s.balance o);
  toggle_balance = λ o. ground (arith, s.toggle_balance o);
}

pub add_inst_dict-IsSound :
    (w : ℕ) (W : World) → (W.wrappers w).inst_dict ≡ false → IsSound W → IsSound (add_inst_dict w W)
unfolding add_inst_dict
add_inst_dict-IsSound w W missing s = record {
  tied = λ o v e. ground (arith, s.tied o v);
  back = λ v o e. ground (arith, s.back v o);
  flag = λ v. ground (arith, s.flag v);
  fresh = λ v le. ground (arith, s.fresh v);
  balance = λ o. ground (arith, s.balance o, s.flag w, s.back w o, s.tied o w);
  toggle_balance = λ o. ground (arith, s.toggle_balance o, s.flag w, s.back w o, s.tied o w);
}

pub get_dict-IsSound : (w : ℕ) (W : World) → IsSound W → IsSound (get_dict w W)
unfolding get_dict
get_dict-IsSound w W s = elim (Bool-cases (W.wrappers w).inst_dict) [
  | inl there ↦ rw (there, get_dict) s
  | inr missing ↦ rw (missing, get_dict) (add_inst_dict-IsSound w W missing s)
]

pub setattro-IsSound :
    (creates : Bool) (w : ℕ) (W : World) → IsSound W → IsSound (setattro creates w W)
unfolding setattro
setattro-IsSound false w W s = elim (Bool-cases (W.wrappers w).inst_dict) [
  | inl there ↦ rw (there, setattro) s
  | inr missing ↦ rw (missing, setattro) s
]
setattro-IsSound true w W s = elim (Bool-cases (W.wrappers w).inst_dict) [
  | inl there ↦ rw (there, setattro) s
  | inr missing ↦ rw (missing, setattro) (add_inst_dict-IsSound w W missing s)
]

-- No object has a floating reference or was created without one, and no sink function fits.
pub record IsPlain (e : Env) (o : ℕ) (W : World) : Type 0 where
  pub owned : e.initially_unowned o ≡ false
  pub sunk : e.floating o ≡ false
  pub no_function : find_sinkfunc e o W.sink_funcs ≡ none

-- The world that make_wrapper leaves for such an object, at its parts.
abbrev pub Made : ℕ → ℕ → World → World → Type 0
Made o tp W V =
    (V.wrappers
      ≡ update W.wrappers W.next
          (record { obj = some o; inst_dict = false; toggle = false; class = tp; refs = 1 }))
    × (V.wrapper_of ≡ update W.wrapper_of o (some W.next))
    × (V.next ≡ suc W.next)
    × (V.calls ≡ g_object_ref o ∷ W.calls)
    × (V.inst_data ≡ W.inst_data)

sink-IsPlain : (e : Env) (o : ℕ) (W : World) → IsPlain e o W → pygobject_sink e o W ≡ W
unfolding pygobject_sink
sink-IsPlain e o W p = rw (p.no_function, p.owned, p.sunk, pygobject_sink)

register_wrapper-new :
    (e : Env) (o tp : ℕ) (W : World)
    → IsPlain e o W
    → Made o tp W (register_wrapper e W.next o (place_wrapper o tp W))
unfolding register_wrapper place_wrapper
register_wrapper-new e o tp W p =
    let p' : IsPlain e o (place_wrapper o tp W) = record {
      owned = p.owned;
      sunk = p.sunk;
      no_function = p.no_function;
    } in
    rw (sink-IsPlain e o (place_wrapper o tp W) p', ==_refl W.next) (refl, refl, refl, refl, refl)

pub make_wrapper-Made :
    (e : Env) (o tp : ℕ) (W : World) → IsPlain e o W → Made o tp W (make_wrapper e o tp W)
unfolding make_wrapper incref_class
make_wrapper-Made e o tp W p = elim (Bool-cases (e.is_heap_type tp)) [
  | inl h ↦
      let W' = record W { class_refs = update W.class_refs tp (W.class_refs tp + 1) } in
      rw (h, make_wrapper)
        (register_wrapper-new e o tp W'
          (record { owned = p.owned; sunk = p.sunk; no_function = p.no_function }))
  | inr h ↦ rw (h, make_wrapper) (register_wrapper-new e o tp W p)
]

Made-IsSound :
    (o tp : ℕ) (W V : World) → W.wrapper_of o ≡ none → Made o tp W V → IsSound W → IsSound V
Made-IsSound o tp W V free (ws, of, nx, cs, _) s = record {
  tied = λ p v. rw (ws, of) (λ e. ground (arith, s.tied p v, s.tied p W.next, s.fresh W.next));
  back = λ v p. rw (ws, of) (λ e. ground (arith, s.back v p, s.fresh v));
  flag = λ v. rw ws (ground (arith, s.flag v));
  fresh = λ v. rw (nx, ws) (λ le. ground (arith, s.fresh v));
  balance = λ p. rw (ws, of, cs) (ground (arith, s.balance p, s.fresh W.next, s.tied p W.next));
  toggle_balance =
      λ p. rw (ws, of, cs) (ground (arith, s.toggle_balance p, s.fresh W.next, s.tied p W.next));
}

pub make_wrapper-IsSound :
    (e : Env) (o tp : ℕ) (W : World)
    → IsPlain e o W
    → W.wrapper_of o ≡ none
    → IsSound W
    → IsSound (make_wrapper e o tp W)
make_wrapper-IsSound e o tp W p free s =
    Made-IsSound o tp W (make_wrapper e o tp W) free (make_wrapper-Made e o tp W p) s

pub new_full-IsSound :
    (e : Env) (o : ℕ) (g_class : Option ℕ) (W : World)
    → IsPlain e o W
    → IsSound W
    → IsSound (new_full e (some o) g_class W).1
unfolding new_full
new_full-IsSound e o g_class W p s = elim (Option-cases (W.wrapper_of o)) [
  | inl free ↦
      rw (free, new_full) (make_wrapper-IsSound e o (wrapper_class e o g_class W) W p free s)
  | inr (w, old) ↦ rw (old, new_full) (py_incref-IsSound w W s)
]

register_wrapper-wrapper_of :
    (e : Env) (w o : ℕ) (W : World) → (register_wrapper e w o W).wrapper_of o ≡ some w
unfolding register_wrapper switch_to_toggle_ref
register_wrapper-wrapper_of e w o W = ground (arith, ==_refl o)

new_full_known :
    (e : Env) (o w : ℕ) (g_class : Option ℕ) (W : World)
    → W.wrapper_of o ≡ some w
    → ((new_full e (some o) g_class W).0 ≡ some w)
      × ((new_full e (some o) g_class W).1.wrapper_of o ≡ some w)
unfolding new_full py_incref
new_full_known e o w g_class W known = (rw (known, new_full), rw (known, new_full) known)

new_full_ties :
    (e : Env) (o : ℕ) (g_class : Option ℕ) (W : World)
    → (w : ℕ) × ((new_full e (some o) g_class W).0 ≡ some w)
      × ((new_full e (some o) g_class W).1.wrapper_of o ≡ some w)
unfolding new_full make_wrapper
new_full_ties e o g_class W = elim (Option-cases (W.wrapper_of o)) [
  | inl free ↦
      (W.next, rw (free, new_full), rw (free, new_full) (register_wrapper-wrapper_of e W.next o _))
  | inr (w, old) ↦ let (given, tied) = new_full_known e o w g_class W old in (w, given, tied)
]

-- An object always gets the wrapper that it has: asking a second time, whatever GLib then says of
-- the object, gives the same wrapper.
pub new_full_same :
    (e f : Env) (o : ℕ) (g h : Option ℕ) (W : World)
    → (w : ℕ) × ((new_full e (some o) g W).0 ≡ some w)
      × ((new_full f (some o) h (new_full e (some o) g W).1).0 ≡ some w)
new_full_same e f o g h W =
    let (w, given, tied) = new_full_ties e o g W in
    (w, given, (new_full_known f o w h (new_full e (some o) g W).1 tied).0)

pub alloc_wrapper-IsSound : (tp : ℕ) (W : World) → IsSound W → IsSound (alloc_wrapper tp W).1
unfolding alloc_wrapper
alloc_wrapper-IsSound tp W s = record {
  tied = λ o v. ground (arith, s.tied o v, s.fresh v);
  back = λ v o. ground (arith, s.back v o);
  flag = λ v. ground (arith, s.flag v);
  fresh = λ v le. ground (arith, s.fresh v);
  balance = λ o. ground (arith, s.balance o, s.tied o W.next, s.fresh W.next);
  toggle_balance = λ o. ground (arith, s.toggle_balance o, s.tied o W.next, s.fresh W.next);
}

-- The world that constructv leaves for a new plain object, before the dictionary is looked at.
abbrev built : ℕ → ℕ → World → World
built w o W = record W {
  wrappers = update W.wrappers w (record (W.wrappers w) { obj = some o });
  calls = g_object_newv o ∷ W.calls;
}

register_built-IsSound :
    (e : Env) (w o : ℕ) (W : World)
    → IsPlain e o W
    → suc w ≤ W.next
    → (W.wrappers w).obj ≡ none
    → W.wrapper_of o ≡ none
    → IsSound W
    → IsSound (register_wrapper e w o (built w o W))
unfolding register_wrapper switch_to_toggle_ref
register_built-IsSound e w o W p given bare free s =
    let p' : IsPlain e o (built w o W) = record {
      owned = p.owned;
      sunk = p.sunk;
      no_function = p.no_function;
    } in
    rw (sink-IsPlain e o (built w o W) p') (record {
      tied = λ q v. ground (arith, s.tied q v, s.tied q w);
      back = λ v q. ground (arith, s.back v q);
      flag = λ v. ground (arith, s.flag v);
      fresh = λ v le. ground (arith, s.fresh v);
      balance = λ q. ground (arith, s.balance q, s.tied q w, s.flag w);
      toggle_balance = λ q. ground (arith, s.toggle_balance q, s.tied q w, s.flag w);
    })

pub constructv-IsSound :
    (e : Env) (w o : ℕ) (W : World)
    → IsPlain e o W
    → suc w ≤ W.next
    → W.wrapper_of o ≡ none
    → IsSound W
    → IsSound (constructv e w o W)
unfolding constructv
constructv-IsSound e w o W p given free s = elim (Option-cases (W.wrappers w).obj) [
  | inl bare ↦ rw (bare, constructv) (register_built-IsSound e w o W p given bare free s)
  | inr (q, has) ↦ rw (has, constructv) s
]
