-- ===== src/Wrapper/Rewrap.antt =====
-- A second wrapper for an object whose first is gone, and an object that never had a floating
-- reference of its caller's.
use debian_pygobject.Base.{
  ℕ, ◌+◌, ◌≡◌, refl, ◌∙◌, inl, inr, true, false, Option, none, some, arith, Bool-cases, update,
  ==_refl,
}
use debian_pygobject.Wrapper.{
  Env, World, InstData, g_object_ref, find_sinkfunc, pygobject_sink, log, wrapper_class, new_full,
  make_wrapper, incref_class, place_wrapper, register_wrapper, dealloc,
}
use debian_pygobject.Wrapper.Invariant.{taken, dropped}

-- When a wrapper ends, its object has data, and the class there is the one that the next wrapper gets:
-- the class that the data had, or that of the ending wrapper where there was none.
pub dealloc_keeps_class :
    (w o : ℕ) (W : World) (e : Env) (g_class : Option ℕ)
    → (W.wrappers w).obj ≡ some o
    → ((d : InstData) → W.inst_data o ≡ some d → wrapper_class e o g_class (dealloc w W) ≡ d.type)
      × (W.inst_data o ≡ none → wrapper_class e o g_class (dealloc w W) ≡ (W.wrappers w).class)
unfolding dealloc wrapper_class
dealloc_keeps_class w o W e g_class has = (λ d old. ground arith, λ free. ground arith)

-- The world with the first wrapper of an object that is initially unowned and has been sunk.
abbrev Twice : ℕ → World → World → Type 0
Twice o W V =
    (taken o V.calls ≡ taken o W.calls + 2)
    × (dropped o V.calls ≡ dropped o W.calls)
    × ((V.wrappers W.next).obj ≡ some o)
    × ((V.wrappers W.next).inst_dict ≡ false)

sink_unowned :
    (o : ℕ) (W : World) (e : Env)
    → e.initially_unowned o ≡ true
    → e.floating o ≡ false
    → find_sinkfunc e o W.sink_funcs ≡ none
    → pygobject_sink e o W ≡ log (g_object_ref o) W
unfolding pygobject_sink
sink_unowned o W e unowned sunk no_function = rw (no_function, unowned, sunk, pygobject_sink)

register_unowned :
    (o tp : ℕ) (W : World) (e : Env)
    → e.initially_unowned o ≡ true
    → e.floating o ≡ false
    → find_sinkfunc e o W.sink_funcs ≡ none
    → Twice o W (register_wrapper e W.next o (place_wrapper o tp W))
unfolding register_wrapper place_wrapper log
register_unowned o tp W e unowned sunk no_function =
    rw (sink_unowned o (place_wrapper o tp W) e unowned sunk no_function, ==_refl W.next, ==_refl o)
      (omega arith, refl, ground arith, ground arith)

make_unowned :
    (o tp : ℕ) (W : World) (e : Env)
    → e.initially_unowned o ≡ true
    → e.floating o ≡ false
    → find_sinkfunc e o W.sink_funcs ≡ none
    → Twice o W (make_wrapper e o tp W)
unfolding make_wrapper incref_class
make_unowned o tp W e unowned sunk no_function = elim (Bool-cases (e.is_heap_type tp)) [
  | inl h ↦
      let W' = record W { class_refs = update W.class_refs tp (W.class_refs tp + 1) } in
      rw (h, make_wrapper) (register_unowned o tp W' e unowned sunk no_function)
  | inr h ↦ rw (h, make_wrapper) (register_unowned o tp W e unowned sunk no_function)
]

dealloc_plain :
    (w o : ℕ) (W : World)
    → (W.wrappers w).obj ≡ some o
    → (W.wrappers w).inst_dict ≡ false
    → let V = dealloc w W in
      (taken o V.calls ≡ taken o W.calls)
      × (dropped o V.calls ≡ dropped o W.calls + 1)
      × (V.wrapper_of o ≡ none)
unfolding dealloc
dealloc_plain w o W has bare = ground (arith, ==_refl o)

-- The first wrapper of an object that is initially unowned and has been sunk takes two references
-- to it, and drops one of them when it ends.
pub unowned_leak :
    (o : ℕ) (W : World) (e : Env) (g_class : Option ℕ)
    → W.wrapper_of o ≡ none
    → e.initially_unowned o ≡ true
    → e.floating o ≡ false
    → find_sinkfunc e o W.sink_funcs ≡ none
    → let V = dealloc W.next (new_full e (some o) g_class W).1 in
      (taken o V.calls ≡ taken o W.calls + 2)
      × (dropped o V.calls ≡ dropped o W.calls + 1)
      × (V.wrapper_of o ≡ none)
unfolding new_full
unowned_leak o W e g_class free unowned sunk no_function =
    let tp = wrapper_class e o g_class W in
    let (t, d, has, bare) = make_unowned o tp W e unowned sunk no_function in
    let (t', d', gone) = dealloc_plain W.next o (make_wrapper e o tp W) has bare in
    rw (free, new_full) (t' ∙ t, omega arith, gone)
