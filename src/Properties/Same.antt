-- ===== src/Properties/Same.antt =====
-- That the ways to a property of a GObject, in gobject/pygobject.c, agree with each other.
use debian_pygobject.Base.{
  arith, ◌+◌, ◌-◌, ℕ, suc, ◌≡◌, refl, sym, ap, ◌∙◌, Bool, true, false, not, Option, none, some,
  List, [], ◌∷◌, map, if◌then◌else◌, CString, codes, bytes_eq, taken, Option-cases, inl, inr,
}
use debian_pygobject.CInt.{ℤ}
use debian_pygobject.Values.{Object, Content, number, Fundamental, Glib, Python, Marshals}
use debian_pygobject.Values.ToPython.{Converted, object, Wrapping, int_or_long}
use debian_pygobject.Values.Param.{plain_spec, param_gvalue_from_pyobject, param_gvalue_as_pyobject}
use debian_pygobject.Values.Fitting.{NumberFits}
use debian_pygobject.Values.RoundTrip.{IsInteger, number_roundtrip}
use debian_pygobject.Properties.{
  ParamSpec, PropertyError, not_initialized, not_readable, no_such_property, Env, World, Result, ok,
  err, crashed, set_property_from_pspec, read_property, get_property, read_item, cons_result,
  read_items, get_properties, write_property, finish_write, set_property,
}
use debian_pygobject.Properties.Attributes.{
  Attribute, PropsClass, property_value, getattro, setattro, by_property,
}

-- The attribute that a value of a property becomes.
abbrev pub as_attribute : Result Converted → Result Attribute
as_attribute (ok v) = ok (property_value v)
as_attribute (err f) = err f
as_attribute crashed = crashed

-- One result after the other: the first that is no value ends it.
abbrev pub sequence : List (Result Converted) → Result (List Converted)
sequence [] = ok []
sequence (x ∷ xs) = cons_result x (sequence xs)

module _ {S : Type 0} (e : Env S) (s : S) (w : World S) (there : w.obj ≡ some s) where
  get_property-read : (name : CString) → get_property e (some name) w ≡ read_property e s name
  unfolding get_property
  get_property-read name = rw (there, get_property)

  readable_value :
      (name : CString) (p : ParamSpec)
      → e.find_property name ≡ some p
      → read_property e s name
        ≡ (if not p.readable then err not_readable else ok (e.as_pyobject p (e.get s name)))
  unfolding read_property
  readable_value name p found = rw (found, read_property)

  attribute-if :
      (n : ℕ) (b : Bool) (f : PropertyError) (v : Converted)
      → ◌≡◌ {A = Result Attribute × ℕ}
          (if b then (err f, n) else (ok (property_value v), n))
          (as_attribute (if b then err f else ok v), n)
  attribute-if n true f v = refl
  attribute-if n false f v = refl

  given_back : (refs : ℕ) → refs + 1 - 1 ≡ refs
  given_back refs = omega arith

  -- For a property that the object has by the same GParamSpec as the class that `props` refers to,
  -- reading the attribute of `props` gives what `get_property` gives, and leaves the class with the
  -- references that it had; and setting it does what `set_property` does.
  pub attribute_access :
      (cls : PropsClass) (refs : ℕ) (name : CString) (o : Object) (p : ParamSpec)
      → e.find_property name ≡ some p
      → cls.find_pspec name ≡ some p
      → bytes_eq name (codes "__members__") ≡ false
      → (getattro e cls refs (some name) (some (some s))
          ≡ (as_attribute (get_property e (some name) w), refs))
        × (setattro e (some name) (some o) (some w)
            ≡ ok (by_property (set_property e (some (name, o)) w)))
  unfolding getattro setattro set_property write_property
  attribute_access cls refs name o p found same ordinary = (
    rw (ordinary, same, getattro, given_back refs)
        (attribute-if refs (not p.readable) not_readable (e.as_pyobject p (e.get s name))
          ∙ ap (λ r. (as_attribute r, refs))
              (sym (get_property-read name ∙ readable_value name p found))),
    rw (there, found, setattro, set_property) (rw (found, write_property)),
  )

  read_item-read :
      ((p : ParamSpec) (c : Content) → e.plain_as_pyobject p c ≡ e.as_pyobject p c)
      → (name : CString) → read_item e s (some name) ≡ read_property e s name
  unfolding read_item read_property
  read_item-read plain name = elim (Option-cases (e.find_property name)) [
    | inl absent ↦ rw (absent, read_item, read_property)
    | inr (p, found) ↦
        rw (found, read_item, read_property)
          (ap (λ v. if not p.readable then err not_readable else ok v) (plain p (e.get s name)))
  ]

  items-sequence :
      ((p : ParamSpec) (c : Content) → e.plain_as_pyobject p c ≡ e.as_pyobject p c)
      → (xs : List (Option CString))
      → read_items e s xs ≡ sequence (map (λ x. get_property e x w) xs)
  unfolding read_items read_item get_property
  items-sequence plain [] = refl
  items-sequence plain (none ∷ xs) = refl
  items-sequence plain (some name ∷ xs) =
      ap (λ r. cons_result r (read_items e s xs))
        (read_item-read plain name ∙ sym (get_property-read name))
      ∙ ap (cons_result (get_property e (some name) w)) (items-sequence plain xs)

  -- On an object, and where the param specs do not change how values are converted, `get_properties` of
  -- one or more names gives what `get_property` gives of each, or the first exception among them.
  pub get_properties-sequence :
      ((p : ParamSpec) (c : Content) → e.plain_as_pyobject p c ≡ e.as_pyobject p c)
      → (x : Option CString) (xs : List (Option CString))
      → get_properties e (x ∷ xs) w ≡ sequence (map (λ y. get_property e y w) (x ∷ xs))
  unfolding get_properties
  get_properties-sequence plain x xs =
      taken w.obj crashed (λ s. read_items e s (x ∷ xs)) there ∙ items-sequence plain (x ∷ xs)

  -- A property that can be read and be written at any time, of an integer type, keeps a number that the
  -- type can hold: `get_property` gives the int or long that `set_property` was given, and setting it
  -- changes nothing else of the wrapper. It is assumed that the object gives back what it was given for
  -- the property, and that the conversions are those of a param spec that is neither for an array nor
  -- for a unicode character.
  pub property_roundtrip :
      (fuel depth : ℕ) (g : Glib) (py : Python) (m : Marshals) (k : Wrapping)
      (unicode_of : ℕ → Converted) (name : CString) (p : ParamSpec) (f : Fundamental) (v : ℤ)
      → e.find_property name ≡ some p
      → p.readable ≡ true
      → p.writable ≡ true
      → p.construct_only ≡ false
      → IsInteger f
      → NumberFits f v
      → g.fundamental p.value_type ≡ f
      → ((c : Content) → e.get (e.set s name c) name ≡ c)
      → ((o : Object)
          → e.from_pyobject p o
            ≡ param_gvalue_from_pyobject
                (suc fuel)
                depth
                g
                py
                m
                plain_spec
                p.value_type
                (g.initial p.value_type)
                o)
      → ((c : Content)
          → e.as_pyobject p c
            ≡ param_gvalue_as_pyobject unicode_of depth g m k true plain_spec p.value_type c)
      → (set_property e (some (name, int_or_long v)) w
          ≡ (ok tt, record w { obj = some (e.set s name (number v)) }))
        × (get_property e (some name) (record w { obj = some (e.set s name (number v)) })
            ≡ ok (object (int_or_long v)))
  unfolding param_gvalue_from_pyobject param_gvalue_as_pyobject set_property get_property
      finish_write write_property set_property_from_pspec read_property
  property_roundtrip fuel depth g py m k unicode_of name p f v found r wr con i fits fund keeps from
        back =
      let (put, got) =
        number_roundtrip fuel depth g py m k true f v p.value_type (g.initial p.value_type) i fits
          fund in
      let written : write_property e s name (int_or_long v) ≡ ok (e.set s name (number v)) =
        taken (e.find_property name) (err no_such_property)
          (λ p. set_property_from_pspec e s name p (int_or_long v)) found
        ∙ rw (set_property_from_pspec, from (int_or_long v), put, con, wr) in
      let value : read_property e (e.set s name (number v)) name ≡ ok (object (int_or_long v)) =
        taken (e.find_property name) (err no_such_property) _ found
        ∙ rw (keeps (number v), back (number v), got, r) in
      (
        taken w.obj (err not_initialized, w)
              (λ s. finish_write w (write_property e s name (int_or_long v))) there
            ∙ ap (finish_write w) written,
        value,
      )
