-- ===== src/Closures.antt =====
-- The closures that connect Python functions to signals: PyGClosure of gobject/pygtype.c, and the
-- list of watched closures in PyGObjectData of gobject/pygobject.c. Closures and Python objects are
-- addresses.
pub mod Watched
pub mod Traversed
use debian_pygobject.Base.{
  ℕ, Bool, true, false, not, ◌||◌, Option, none, some, List, [], ◌∷◌, ◌++◌, ◌==◌, if◌then◌else◌,
}

-- The argument `extra_args`: NULL, None, a tuple, or another object.
pub data ExtraArgs : Type 0 where
  null py_none : ExtraArgs
  tuple : List ℕ → ExtraArgs
  single : ℕ → ExtraArgs

-- PyGClosure; `extra_args` is a tuple if it is there.
pub record PyGClosure : Type 0 where
  pub callback : Option ℕ
  pub extra_args : Option (List ℕ)
  pub swap_data : Option ℕ
  pub derivative_flag : Bool

unfoldable pub closure_extra_args : ExtraArgs → Option (List ℕ)
closure_extra_args null = none
closure_extra_args py_none = none
closure_extra_args (tuple xs) = some xs
closure_extra_args (single x) = some (x ∷ [])

-- `none` is the NULL that is returned for no callback.
unfoldable pub closure_new : Option ℕ → ExtraArgs → Option ℕ → Option PyGClosure
unfolding closure_extra_args
closure_new none extra swap = none
closure_new (some f) extra none = some (record {
  callback = some f;
  extra_args = closure_extra_args extra;
  swap_data = none;
  derivative_flag = false;
})
closure_new (some f) extra (some d) = some (record {
  callback = some f;
  extra_args = closure_extra_args extra;
  swap_data = some d;
  derivative_flag = true;
})

-- pyg_closure_invalidate: all that the closure refers to is released.
unfoldable pub closure_invalidate : PyGClosure → PyGClosure
closure_invalidate c = record c { callback = none; extra_args = none; swap_data = none }

-- g_slist_find(closures, closure) != NULL
unfoldable pub is_watched : ℕ → List ℕ → Bool
is_watched c [] = false
is_watched c (d ∷ ds) = (d == c) || is_watched c ds

-- g_slist_remove: the first entry goes.
unfoldable pub unwatch_closure : ℕ → List ℕ → List ℕ
unwatch_closure c [] = []
unwatch_closure c (d ∷ ds) = if d == c then ds else d ∷ unwatch_closure c ds

unfoldable pub watch_closure : ℕ → List ℕ → List ℕ
unfolding is_watched
watch_closure c cs = if is_watched c cs then cs else c ∷ cs

-- The loop of pygobject_data_free over the closures that were watched when it began. `invalidate`
-- is g_closure_invalidate as it acts on the list; the result is the list, and the closures that were
-- invalidated, in order.
unfoldable pub data_free_loop : (ℕ → List ℕ → List ℕ) → List ℕ → List ℕ → List ℕ × List ℕ
data_free_loop invalidate [] watched = (watched, [])
data_free_loop invalidate (c ∷ cs) watched =
    let (left, done) = data_free_loop invalidate cs (invalidate c watched) in (left, c ∷ done)

-- Without NDEBUG the list is cut off before the loop.
unfoldable pub data_free : Bool → (ℕ → List ℕ → List ℕ) → List ℕ → List ℕ × List ℕ
unfolding data_free_loop
data_free ndebug invalidate watched =
    data_free_loop invalidate watched (if ndebug then watched else [])

-- `visit` of the cycle collector: 0 to go on.
unfoldable pub visit_field : (ℕ → ℕ) → Option ℕ → ℕ
visit_field visit none = 0
visit_field visit (some x) = visit x

-- The objects that the fields of a closure hold, for the collector: a tuple is one object, at an
-- address that `tuple_at` gives.
unfoldable pub traverse_closures : (ℕ → ℕ) → (ℕ → Option ℕ × Option ℕ × Option ℕ) → List ℕ → ℕ
unfolding visit_field
traverse_closures visit fields [] = 0
traverse_closures visit fields (c ∷ cs) =
    let rest = traverse_closures visit fields cs in
    let (callback, extra_args, swap_data) = fields c in
    let ret = visit_field visit callback in
    if not (ret == 0)
    then ret
    else (let ret = visit_field visit extra_args in
        if not (ret == 0)
        then ret
        else (let ret = visit_field visit swap_data in if not (ret == 0) then ret else rest))

-- pygobject_traverse: the dictionary first, then the closures of the object's data, if it has any.
unfoldable pub pygobject_traverse :
    (ℕ → ℕ) → (ℕ → Option ℕ × Option ℕ × Option ℕ) → Option ℕ → Option (List ℕ) → ℕ
unfolding visit_field traverse_closures
pygobject_traverse visit fields inst_dict closures =
    let ret = visit_field visit inst_dict in
    if not (ret == 0)
    then ret
    else elim closures [ none ↦ 0 | some cs ↦ traverse_closures visit fields cs ]

-- gclosure_from_pyfunc: `differs` is PyObject_Cmp of a closure's callback and the function.
unfoldable pub closure_from_pyfunc : (ℕ → Bool) → Option (List ℕ) → Option ℕ
closure_from_pyfunc differs none = none
closure_from_pyfunc differs (some []) = none
closure_from_pyfunc differs (some (c ∷ cs)) =
    let rest = closure_from_pyfunc differs (some cs) in if not (differs c) then some c else rest
