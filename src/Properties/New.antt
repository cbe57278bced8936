-- ===== src/Properties/New.antt =====
-- pyg_object_new of gobject/gobjectmodule.c: a GObject is made from a type and construct properties.
use debian_pygobject.Base.{
  ℕ, ◌≡◌, refl, Bool, true, false, not, Option, none, some, List, [], ◌∷◌, if◌then◌else◌, ◌==◌,
  CString, ==_refl,
}
use debian_pygobject.Values.{Object, Content, stored, refused, unset, out_of_fuel}
use debian_pygobject.Properties.{
  PropertyError, bad_arguments, no_such_property, cannot_convert, abstract_type, no_gtype, no_class,
  cannot_create, Env,
}
use debian_pygobject.Properties.Init.{Params, no_more}
use debian_pygobject.Wrapper.{
  World, log, g_object_newv, g_object_unref, g_object_ref, new_full, wrapper_class, make_wrapper,
}
use debian_pygobject.Wrapper.Attach.{IsPlain, make_wrapper-Made}
use debian_pygobject.Wrapper

-- The wrapper or NULL, the pending exception, the parameters that were released, whether a
-- conversion did not end, and the wrappers afterwards.
pub record Created : Type 0 where
  pub wrapper : Option ℕ
  pub pending : Option PropertyError
  pub freed : List (CString × Content)
  pub looping : Bool
  pub world : World

abbrev pub not_created : PropertyError → World → Created
not_created f W = record {
  wrapper = none;
  pending = some f;
  freed = [];
  looping = false;
  world = W;
}

module _ {S : Type 0} where
  -- The loop over the keyword arguments.
  unfoldable pub collect_keywords : Env S → List (CString × Object) → Params
  collect_keywords e [] = no_more none
  collect_keywords e ((name, o) ∷ kws) =
      let rest = collect_keywords e kws in
      elim (e.find_property name) [
        | none ↦ no_more (some no_such_property)
        | some p ↦ elim (e.from_pyobject p o) [
          | stored c ↦ record rest { params = (name, c) ∷ rest.params }
          | refused c ↦ no_more (some cannot_convert)
          | unset ↦ no_more (some cannot_convert)
          | out_of_fuel ↦ record (no_more none) { loops = true }
        ]
      ]

-- The wrapper of the new object takes a reference, and that of g_object_newv is dropped.
unfoldable pub wrap_new : Wrapper.Env → ℕ → World → Option ℕ × World
unfolding new_full log
wrap_new we o W =
    let (w, after) = new_full we (some o) none (log (g_object_newv o) W) in
    (w, log (g_object_unref o) after)

-- After the loop; `newv` is g_object_newv, with the address of the object.
unfoldable pub create :
    Wrapper.Env → (List (CString × Content) → Option ℕ) → Params → World → Created
unfolding wrap_new
create we newv ps W = elim ps.error [
  | some f ↦ record (not_created f W) { freed = ps.params }
  | none ↦ elim (newv ps.params) [
    | none ↦ record (not_created cannot_create W) { freed = ps.params }
    | some o ↦
        let (w, after) = wrap_new we o W in
        record { wrapper = w; pending = none; freed = ps.params; looping = ps.loops; world = after }
  ]
]

-- `type` is what pyg_type_from_object makes of the argument, if there is one. A conversion that does
-- not end stops before the object is made.
unfoldable pub object_new :
    {S : Type 0}
    → Env S
    → Wrapper.Env
    → (List (CString × Content) → Option ℕ)
    → (ℕ → Bool)
    → (ℕ → Bool)
    → Option ℕ
    → List (CString × Object)
    → World
    → Created
unfolding collect_keywords create
object_new e we newv is_abstract has_class none kws W = not_created bad_arguments W
object_new e we newv is_abstract has_class (some t) kws W =
    if t == 0
    then not_created no_gtype W
    else if is_abstract t
    then not_created abstract_type W
    else if not (has_class t)
    then not_created no_class W
    else if (collect_keywords e kws).loops
    then record { wrapper = none; pending = none; freed = []; looping = true; world = W }
    else create we newv (collect_keywords e kws) W

module _ (we : Wrapper.Env) (o : ℕ) where
  new_full-free :
      (V : World)
      → V.wrapper_of o ≡ none
      → new_full we (some o) none V ≡ (some V.next, make_wrapper we o (wrapper_class we o none V) V)
  unfolding new_full
  new_full-free V free = rw (free, new_full)

  -- An object that is neither floating nor initially unowned, for which no sink function is there and
  -- which has no wrapper yet, gets a new one, by which it is found again; of the references to the
  -- object that were taken, only that of the wrapper is left.
  pub wrap_new-owned :
      (W : World)
      → W.wrapper_of o ≡ none
      → IsPlain we o W
      → ((wrap_new we o W).0 ≡ some W.next)
        × ((wrap_new we o W).1.wrapper_of o ≡ some W.next)
        × ((wrap_new we o W).1.calls
            ≡ g_object_unref o ∷ g_object_ref o ∷ g_object_newv o ∷ W.calls)
  unfolding wrap_new log
  wrap_new-owned W free plain =
      let V = log (g_object_newv o) W in
      let (ws, of, nx, cs, _) =
        make_wrapper-Made we o (wrapper_class we o none V) V
          (record { owned = plain.owned; sunk = plain.sunk; no_function = plain.no_function }) in
      rw (new_full-free V free, of, cs, ==_refl o) (refl, refl, refl)
