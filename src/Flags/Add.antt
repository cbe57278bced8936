-- ===== src/Flags/Add.antt =====
-- The classes that pyg_flags_add makes, and the constants that pyg_flags_new gives from them.
use debian_pygobject.Base.{
  ℕ, [], ◌⊎◌, ap, ◌∙◌, ◌≡◌, refl, inl, inr, true, false, Option, none, some, ◌==◌, ◌<◌, arith,
  Bool-cases, if◌then◌else◌, length, CString,
}
use debian_pygobject.CInt.{ℤ}
use debian_pygobject.Constants.{
  Dict, dict, ConstantClass, make_class, attach_class, World, TypeSystem, ok, err, guard,
  not_this_kind, cannot_create, invalid_value, values_badly_formed, incref, get_item,
  take_constant-some, take_constant-none, >>=-eq-ok,
}
use debian_pygobject.Constants.Register.{register_values}
use debian_pygobject.Constants.Registered.{has_value}
use debian_pygobject.Constants.Sizes.{distinct, length-register_distinct, length-register_duplicate}
use debian_pygobject.Constants.ClassOf.{IsClassOf, attach-IsClassOf, entry_or_none}
use debian_pygobject.Enum.{add_class_export, read_gtype}
use debian_pygobject.Flags.{flags_add, flags_new, read_flags_values}

no_entry : (k : ℤ) → get_item k [] ≡ none
unfolding get_item
no_entry k = refl

-- The class, and the loop that filled its dict.
flags_add-parts :
    (ts : TypeSystem) (m : Option CString) (name prefix : CString) (t : ℕ) (w : World)
    (cls : ConstantClass) (w' : World)
    → flags_add ts m name prefix t w ≡ ok (cls, w')
    → (d : Dict) × (w₁ : World) × (register_values t m prefix
          (ts.class_values t)
          []
          (add_class_export m name t w)
        ≡ ok (d, w₁))
      × (attach_class (make_class name m t d) t w₁ ≡ (cls, w'))
unfolding flags_add
flags_add-parts ts m name prefix t w cls w' e =
    let (_, _, e₁) = >>=-eq-ok (guard (ts.is_flags t) not_this_kind) _ e in
    let (_, _, e₂) = >>=-eq-ok (guard (ts.can_create name) cannot_create) _ e₁ in
    let ((d, w₁), loop, e₃) =
      >>=-eq-ok (register_values t m prefix (ts.class_values t) [] (add_class_export m name t w)) _
        e₂ in
    (d, w₁, loop, cc)

pub flags_add-IsClassOf :
    (ts : TypeSystem) (m : Option CString) (name prefix : CString) (t : ℕ) (w : World)
    (cls : ConstantClass) (w' : World)
    → flags_add ts m name prefix t w ≡ ok (cls, w')
    → IsClassOf ts t cls w'
flags_add-IsClassOf ts m name prefix t w cls w' e =
    let (d, w₁, loop, made) = flags_add-parts ts m name prefix t w cls w' e in
    attach-IsClassOf ts m name prefix t d (add_class_export m name t w) w₁ cls w' loop made

module _ (ts : TypeSystem) (m : Option CString) (name prefix : CString) (t : ℕ) (w : World)
    (cls : ConstantClass) (w' : World) (added : flags_add ts m name prefix t w ≡ ok (cls, w')) where
  -- The two checks of pyg_flags_new, by the number of entries.
  reads :
      (d : Dict)
      → cls.values_attr ≡ dict d
      → (read_gtype cls.gtype_attr ≡ ok t)
        × (read_flags_values ts t cls.values_attr
            ≡ (if length d == length (ts.class_values t) then ok d else err values_badly_formed))
  unfolding read_gtype read_flags_values
  reads d e = (rw (flags_add-IsClassOf ts m name prefix t w cls w' added).gtype refl, rw e refl)

  sizes :
      (d : Dict)
      → cls.values_attr ≡ dict d
      → ((distinct (ts.class_values t) ≡ true) × (length d ≡ length (ts.class_values t)))
        ⊎ ((distinct (ts.class_values t) ≡ false) × (length d < length (ts.class_values t)))
  unfolding attach_class
  sizes d e =
      let (d₁, w₁, loop, made) = flags_add-parts ts m name prefix t w cls w' added in
      let attr : dict d₁ ≡ dict d = ap (λ (q : ConstantClass × World). q.0.values_attr) made ∙ e in
      let same : d₁ ≡ d = cc in
      elim (Bool-cases (distinct (ts.class_values t))) [
        | inl u ↦ inl (
          u,
          rw (← same) (
              omega (
                arith,
                length-register_distinct t m prefix (ts.class_values t) []
                    (add_class_export m name t w) loop u (λ k h. no_entry k),
              )),
        )
        | inr u ↦ inr (
          u,
          rw (← same) (
              omega (
                arith,
                length-register_duplicate t m prefix (ts.class_values t) []
                    (add_class_export m name t w) loop u,
              )),
        )
      ]

  -- If no two values of the type are equal, `FlagsClass(v)` gives a constant with that value and
  -- that type for each value of the type, and fails with ValueError for any other.
  pub flags_new-flags_add :
      (v : ℤ)
      → distinct (ts.class_values t) ≡ true
      → ((has_value v (ts.class_values t) ≡ true)
          × ((a : ℕ) × (flags_new ts cls v w' ≡ ok (a, incref a w'))
              × (w'.constants a ≡ some (record { ival = v; gtype = t }))))
        ⊎ ((has_value v (ts.class_values t) ≡ false)
            × (flags_new ts cls v w' ≡ err (invalid_value v)))
  unfolding flags_new
  flags_new-flags_add v u =
      let c = flags_add-IsClassOf ts m name prefix t w cls w' added in
      let (g, r) = reads c.entries c.attr in
      let fits : (length c.entries == length (ts.class_values t)) ≡ true =
        ground (arith, sizes c.entries c.attr) in
      elim (entry_or_none c v) [
        | inl (has, (a, got, is, _)) ↦
            inl (has, (a, rw (g, r, fits) (take_constant-some v c.entries w' got), is))
        | inr (has, got) ↦ inr (has, rw (g, r, fits) (take_constant-none v c.entries w' got))
      ]

  -- If two values of the type are equal, `FlagsClass(v)` fails for every `v`, the type's own values
  -- included.
  pub flags_new_duplicate :
      (v : ℤ)
      → distinct (ts.class_values t) ≡ false
      → flags_new ts cls v w' ≡ err values_badly_formed
  unfolding flags_new
  flags_new_duplicate v u =
      let c = flags_add-IsClassOf ts m name prefix t w cls w' added in
      let (g, r) = reads c.entries c.attr in
      let wrong : (length c.entries == length (ts.class_values t)) ≡ false =
        ground (arith, sizes c.entries c.attr) in
      rw (g, r, wrong)
