-- ===== src/Options/Given.antt =====
-- What giving groups to contexts and clearing their main groups does to the references to the wrappers
-- of option groups, in glib/pygoptioncontext.c.
use mathlib.Core.Path.{subst}
use debian_pygobject.Base.{
  ℕ, suc, ◌≡◌, ◌⊎◌, refl, sym, ◌∙◌, true, false, none, some, is_some, List, ◌∷◌, if◌then◌else◌,
  ◌==◌, ==_refl, ==_iff, arith, update, Bool-cases, inl, inr,
}
use debian_pygobject.Options.{
  Group, Context, Call, sets_main, adds, clears_main, World, group_decref, group_incref, set_group,
  log,
}
use debian_pygobject.Options.Groups.{
  given, cleared, IsSound, clear-IsSound, give-IsSound, not_given,
}

-- The wrapper of a group that is given to a context.
abbrev pub given_group : Group → Group
given_group x = record (group_incref (group_incref x)) { is_in_context = true }

-- The context `c` gets a main group, or is left without one.
abbrev pub main_of : World → ℕ → ℕ → ℕ → Context
main_of w g c = update w.contexts c (record (w.contexts c) { main_group = some g })

abbrev pub without_main : World → ℕ → ℕ → Context
without_main w c = update w.contexts c (record (w.contexts c) { main_group = none })

-- The wrappers are sound, and a main group was given to its context alone and was not dropped yet.
pub record WorldSound (outside : ℕ → ℕ) (w : World) : Type 0 where
  pub each : (g : ℕ) → IsSound (outside g) (given g w.calls) (cleared g w.calls) (w.groups g)
  pub tied :
      (c g : ℕ)
      → (w.contexts c).main_group ≡ some g
      → (given g w.calls ≡ 1) × (cleared g w.calls ≡ 0)
  pub alone :
      (c d g : ℕ) → (w.contexts c).main_group ≡ some g → (w.contexts d).main_group ≡ some g → c ≡ d

flip : (a b : ℕ) → (a == b) ≡ false → (b == a) ≡ false
flip a b h = ground arith

module _ {ℓ κ} {A : Type ℓ} (P : ℕ → A → Type κ) (f : ℕ → A) (k : ℕ) (v : A) where
  pub update-each :
      P k v → ((j : ℕ) → (j == k) ≡ false → P j (f j)) → (j : ℕ) → P j (update f k v j)
  update-each here others j = elim (Bool-cases (j == k)) [
    | inl same ↦ rw same (subst (λ i. P i v) (sym ((==_iff j k).0 same)) here)
    | inr differ ↦ rw differ (others j differ)
  ]

-- Counts of the groups that a call is not about.
other_given :
    (g h c : ℕ) (cs : List Call)
    → (h == g) ≡ false
    → (given h (sets_main c g ∷ cs) ≡ given h cs) × (given h (adds c g ∷ cs) ≡ given h cs)
other_given g h c cs d = rw (flip h g d) (refl, refl)

other_cleared :
    (g h c : ℕ) (cs : List Call)
    → (h == g) ≡ false
    → cleared h (clears_main c g ∷ cs) ≡ cleared h cs
other_cleared g h c cs d = rw (flip h g d) refl

module _ (outside : ℕ → ℕ) (w : World) (s : WorldSound outside w) where
  -- A group changes, and nothing else.
  pub group-WorldSound :
      (g n : ℕ) (x : Group)
      → IsSound n (given g w.calls) (cleared g w.calls) x
      → WorldSound (update outside g n) (set_group g x w)
  unfolding set_group
  group-WorldSound g n x v = record {
    each =
        update-each (λ j y. IsSound (update outside g n j) (given j w.calls) (cleared j w.calls) y)
          w.groups g x (rw (==_refl g) v) (λ j d. rw d (s.each j));
    tied = s.tied;
    alone = s.alone;
  }

  -- A group that is in no context was given to none.
  not_main : (c g : ℕ) → (w.groups g).is_in_context ≡ false → (w.contexts c).main_group ≡ some g → ⊥
  not_main c g out e =
      omega (arith, (s.tied c g e).0, not_given (outside g) _ _ (w.groups g) out (s.each g))

  module _ (g : ℕ) (out : (w.groups g).is_in_context ≡ false)
      (there : is_some (w.groups g).group ≡ true) where
    given-IsSound :
        IsSound (outside g) (suc (given g w.calls)) (cleared g w.calls) (given_group (w.groups g))
    given-IsSound =
        let none_given = not_given (outside g) _ _ (w.groups g) out (s.each g) in
        rw none_given (
          give-IsSound (outside g) (cleared g w.calls) (w.groups g) out there (
            subst (λ t. IsSound (outside g) t (cleared g w.calls) (w.groups g)) none_given
              (s.each g)))

    others_tied :
        (d h : ℕ)
        → (w.contexts d).main_group ≡ some h
        → ((if g == h then suc (given h w.calls) else given h w.calls) ≡ 1)
          × (cleared h w.calls ≡ 0)
    others_tied d h e = elim (Bool-cases (g == h)) [
      | inl same ↦ absurd (not_main d g out (rw ((==_iff g h).0 same) e))
      | inr differ ↦ rw differ (s.tied d h e)
    ]

    pub adds-WorldSound :
        (c : ℕ) → WorldSound outside (log (adds c g) (set_group g (given_group (w.groups g)) w))
    unfolding set_group log
    adds-WorldSound c = record {
      each =
          update-each
            (λ j y. IsSound (outside j) (given j (adds c g ∷ w.calls)) (cleared j w.calls) y)
            w.groups g (given_group (w.groups g)) (rw (==_refl g) given-IsSound)
            (λ j d. rw (flip j g d) (s.each j));
      tied = others_tied;
      alone = s.alone;
    }

    main_of-cases :
        (c d h : ℕ)
        → (main_of w g c d).main_group ≡ some h
        → ((d ≡ c) × (g ≡ h)) ⊎ ((w.contexts d).main_group ≡ some h)
    main_of-cases c d h e = elim (Bool-cases (d == c)) [
      | inl same ↦ inl ((==_iff d c).0 same, ground (arith, e, same))
      | inr differ ↦ inr (ground (arith, e, differ))
    ]

    given_once_now : (c : ℕ) → (given g (sets_main c g ∷ w.calls) ≡ 1) × (cleared g w.calls ≡ 0)
    given_once_now c =
        let none_given = not_given (outside g) _ _ (w.groups g) out (s.each g) in
        rw (==_refl g) (omega (arith, none_given), omega (arith, none_given, (s.each g).few))

    main-tied :
        (c d h : ℕ)
        → (main_of w g c d).main_group ≡ some h
        → (given h (sets_main c g ∷ w.calls) ≡ 1) × (cleared h w.calls ≡ 0)
    main-tied c d h e = elim (main_of-cases c d h e) [
      | inl (here, same) ↦
          subst (λ k. (given k (sets_main c g ∷ w.calls) ≡ 1) × (cleared k w.calls ≡ 0)) same
            (given_once_now c)
      | inr there' ↦ others_tied d h there'
    ]

    main-alone :
        (c d d' h : ℕ)
        → (main_of w g c d).main_group ≡ some h
        → (main_of w g c d').main_group ≡ some h
        → d ≡ d'
    main-alone c d d' h e e' = elim (main_of-cases c d h e) [
      | inl (here, same) ↦ elim (main_of-cases c d' h e') [
        | inl (here', same') ↦ here ∙ sym here'
        | inr m ↦ absurd (not_main d' g out (rw same m))
      ]
      | inr m ↦ elim (main_of-cases c d' h e') [
        | inl (here', same') ↦ absurd (not_main d g out (rw same' m))
        | inr m' ↦ s.alone d d' h m m'
      ]
    ]

    pub mains-WorldSound :
        (c : ℕ)
        → WorldSound outside (
            log
              (sets_main c g)
              (record (set_group g (given_group (w.groups g)) w) { contexts = main_of w g c }))
    unfolding set_group log
    mains-WorldSound c = record {
      each =
          update-each
            (λ j y. IsSound (outside j) (given j (sets_main c g ∷ w.calls)) (cleared j w.calls) y)
            w.groups g (given_group (w.groups g)) (rw (==_refl g) given-IsSound)
            (λ j d. rw (flip j g d) (s.each j));
      tied = main-tied c;
      alone = main-alone c;
    }

  other_main :
      (c d h : ℕ)
      → (without_main w c d).main_group ≡ some h
      → ((w.contexts d).main_group ≡ some h) × ((d == c) ≡ false)
  other_main c d h e = elim (Bool-cases (d == c)) [
    | inl same ↦ absurd (ground (arith, e, same))
    | inr differ ↦ (ground (arith, e, differ), differ)
  ]

  cleared-tied :
      (c g : ℕ)
      → (w.contexts c).main_group ≡ some g
      → (d h : ℕ) → (without_main w c d).main_group ≡ some h
      → (given h w.calls ≡ 1) × (cleared h (clears_main c g ∷ w.calls) ≡ 0)
  cleared-tied c g e d h m =
      let (m', differ) = other_main c d h m in
      elim (Bool-cases (g == h)) [
        | inl same ↦
            absurd (ground (arith, differ, s.alone d c h m' (rw (← (==_iff g h).0 same) e)))
        | inr other ↦ rw other (s.tied d h m')
      ]

  pub clears-WorldSound :
      (c g : ℕ)
      → (w.contexts c).main_group ≡ some g
      → WorldSound outside (
          log
            (clears_main c g)
            (set_group g (group_decref (w.groups g)) (record w { contexts = without_main w c })))
  unfolding set_group log
  clears-WorldSound c g e =
      let (once, uncleared) = s.tied c g e in
      record {
        each =
            update-each
              (λ j y.
                IsSound (outside j) (given j w.calls) (cleared j (clears_main c g ∷ w.calls)) y)
              w.groups g (group_decref (w.groups g))
              (rw (==_refl g) (
                clear-IsSound (outside g) _ _ (w.groups g) (omega (arith, once, uncleared))
                  (s.each g)))
              (λ j d. rw (flip j g d) (s.each j));
        tied = cleared-tied c g e;
        alone = λ d d' h m m'. s.alone d d' h ((other_main c d h m).0) ((other_main c d' h m').0);
      }
