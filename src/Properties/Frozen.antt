-- ===== src/Properties/Frozen.antt =====
-- pygobject_set_properties of gobject/pygobject.c against pygobject_set_property, one property at a
-- time; and what pygobject_init does with its parameters.
use debian_pygobject.Base.{
  ℕ, suc, ◌-◌, ◌≡◌, refl, sym, ap, ◌∙◌, Bool, true, false, Option, none, some, List, [], ◌∷◌,
  CString, arith, ◌==◌,
}
use debian_pygobject.Values.{Object, Content}
use debian_pygobject.Properties.{
  no_such_property, Env, World, Result, ok, err, crashed, write_property, finish_write,
  set_property, write_properties, freeze_notify, thaw_notify, set_properties,
}
use debian_pygobject.Properties.Init.{Params, collect_params, finish_init, init, released, no_more}

abbrev collected : List (CString × Content) → Params
collected vs = record { params = vs; error = none; loops = false }

module _ {S : Type 0} where
  -- One call after the other, up to the first that fails.
  abbrev pub then_next :
      Result (Unit {0}) × World S
      → (World S → Result (Unit {0}) × World S)
      → Result (Unit {0}) × World S
  then_next (ok u, w) next = next w
  then_next (err f, w) next = (err f, w)
  then_next (crashed, w) next = (crashed, w)

  -- `set_property` of each keyword argument.
  abbrev pub set_each : Env S → List (CString × Object) → World S → Result (Unit {0}) × World S
  set_each e [] w = (ok tt, w)
  set_each e (kw ∷ kws) w = then_next (set_property e (some kw) w) (set_each e kws)

  abbrev pub at_state : S → ℕ → World S
  at_state s n = record { obj = some s; frozen = n }

  abbrev paired : ℕ → Result (Unit {0}) × S → Result (Unit {0}) × World S
  paired n r = (r.0, at_state r.1 n)

  module _ (e : Env S) (n : ℕ) where
    step :
        (kws : List (CString × Object)) (s : S) (x : Result S)
        → ((s' : S) → set_each e kws (at_state s' n) ≡ paired n (write_properties e s' kws))
        → then_next (finish_write (at_state s n) x) (set_each e kws)
          ≡ paired n (elim x [
            | ok s' ↦ write_properties e s' kws
            | err f ↦ (err f, s)
            | crashed ↦ (crashed, s)
          ])
    unfolding finish_write
    step kws s (ok s') ih = ih s'
    step kws s (err f) ih = refl
    step kws s crashed ih = refl

    each :
        (kws : List (CString × Object)) (s : S)
        → set_each e kws (at_state s n) ≡ paired n (write_properties e s kws)
    unfolding set_property write_properties
    each [] s = refl
    each ((name, o) ∷ kws) s = step kws s (write_property e s name o) (each kws)

    -- Of an object, `set_properties` does what `set_property` does for one keyword argument after the
    -- other, up to the first that fails, and with the same result; the notifications are frozen as often
    -- as before, whether it fails or not.
    pub set_properties-each :
        (kws : List (CString × Object)) (s : S)
        → set_properties e kws (at_state s n) ≡ set_each e kws (at_state s n)
    unfolding set_properties freeze_notify thaw_notify
    set_properties-each kws s =
        let r = write_properties e s kws in
        let thawed : suc n - 1 ≡ n = omega arith in
        ap (λ k. (r.0, at_state r.1 k)) thawed ∙ sym (each kws s)

  none_collected :
      (e : Env S) (name : CString) (o : Object) (kws : List (CString × Object))
      → e.find_property name ≡ none
      → collect_params e ((name, o) ∷ kws) ≡ no_more (some no_such_property)
  unfolding collect_params
  none_collected e name o kws absent = rw (absent, collect_params)

  module _ (e : Env S) (construct : List (CString × Content) → Option S → Option (Option S))
      (is_abstract has_class : ℕ → Bool) (t : ℕ) (known : (t == 0) ≡ false)
      (concrete : is_abstract t ≡ false) (class_there : has_class t ≡ true) where
    init-finish :
        (kws : List (CString × Object)) (before : Option S)
        → init e construct is_abstract has_class false t kws before
          ≡ finish_init construct (collect_params e kws) before
    unfolding init
    init-finish kws before = rw (known, concrete, class_there, init)

    -- If the wrapper has an object already, as on a second call of the constructor, an unknown property
    -- makes the constructor succeed with an exception pending.
    pub init_succeeds_with_error :
        (name : CString) (o : Object) (kws : List (CString × Object)) (s : S)
        → e.find_property name ≡ none
        → (let r = init e construct is_abstract has_class false t ((name, o) ∷ kws) (some s) in
            (r.status ≡ true) × (r.pending ≡ some no_such_property))
    unfolding finish_init released
    init_succeeds_with_error name o kws s absent =
        let same =
          init-finish ((name, o) ∷ kws) (some s)
          ∙ ap (λ ps. finish_init construct ps (some s)) (none_collected e name o kws absent) in
        (ap (λ r. r.status) same, ap (λ r. r.pending) same)
