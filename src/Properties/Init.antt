-- ===== src/Properties/Init.antt =====
-- pygobject_init of gobject/pygobject.c: the keyword arguments are construct properties.
use debian_pygobject.Base.{
  ℕ, Bool, true, false, not, Option, none, some, List, [], ◌∷◌, if◌then◌else◌, ◌==◌, CString,
  is_some,
}
use debian_pygobject.Values.{Object, Content, stored, refused, unset, out_of_fuel}
use debian_pygobject.Properties.{
  PropertyError, bad_arguments, no_such_property, cannot_convert, abstract_type, no_gtype, no_class,
  cannot_create, Env,
}

-- The parameters that were converted, with the error that ended the loop, if there is one.
pub record Params : Type 0 where
  pub params : List (CString × Content)
  pub error : Option PropertyError
  pub loops : Bool

abbrev pub no_more : Option PropertyError → Params
no_more f = record { params = []; error = f; loops = false }

-- 0 or -1, the pending exception, and the names of the parameters that were released.
pub record Initialized (S : Type 0) : Type 0 where
  pub status : Bool
  pub pending : Option PropertyError
  pub freed : List (CString × Content)
  pub obj : Option S
  pub looping : Bool

module _ {S : Type 0} where
  unfoldable pub collect_params : Env S → List (CString × Object) → Params
  collect_params e [] = no_more none
  collect_params e ((name, o) ∷ kws) =
      let rest = collect_params e kws in
      elim (e.find_property name) [
        | none ↦ no_more (some no_such_property)
        | some p ↦ elim (e.plain_from_pyobject p o) [
          | stored c ↦ record rest { params = (name, c) ∷ rest.params }
          | refused c ↦ no_more (some cannot_convert)
          | unset ↦ no_more (some cannot_convert)
          | out_of_fuel ↦ record (no_more none) { loops = true }
        ]
      ]

  -- From the label `cleanup` on.
  unfoldable pub released : Params → Option PropertyError → Option S → Initialized S
  released ps f after = record {
    status = is_some after;
    pending = f;
    freed = ps.params;
    obj = after;
    looping = ps.loops;
  }

  -- The returns before the loop.
  unfoldable pub fails : PropertyError → Option S → Initialized S
  fails f before = record {
    status = false;
    pending = some f;
    freed = [];
    obj = before;
    looping = false;
  }

  -- After the loop: the object is made by `construct`, which is pygobject_constructv, unless there was
  -- an error; the parameters are released; and the status says whether there is an object.
  unfoldable pub finish_init :
      (List (CString × Content) → Option S → Option (Option S)) → Params → Option S → Initialized S
  unfolding released
  finish_init construct ps before = elim ps.error [
    | some f ↦ released ps (some f) before
    | none ↦ elim (construct ps.params before) [
      | none ↦ released ps (some cannot_create) before
      | some after ↦ released ps none after
    ]
  ]

  -- The type is 0 if the object has none; `args` tells whether there are positional arguments.
  unfoldable pub init :
      Env S
      → (List (CString × Content) → Option S → Option (Option S))
      → (ℕ → Bool)
      → (ℕ → Bool)
      → Bool
      → ℕ
      → List (CString × Object)
      → Option S
      → Initialized S
  unfolding collect_params finish_init fails
  init e construct is_abstract has_class args t kws before =
      if args
      then fails bad_arguments before
      else if t == 0
      then fails no_gtype before
      else if is_abstract t
      then fails abstract_type before
      else if not (has_class t)
      then fails no_class before
      else finish_init construct (collect_params e kws) before
