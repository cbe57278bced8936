-- ===== src/Registration/FirstFree.antt =====
-- What get_type_name_for_class of gobject/gobjectmodule.c finds, and in what order class init functions
-- run.
use debian_pygobject.Base.{
  ℕ, suc, ◌<◌, ◌≡◌, refl, sym, ap, ◌∙◌, Bool, true, false, some, List, [], ◌∷◌, ◌++◌, ◌==◌, arith,
  Bool-cases, inl, inr,
}
use mathlib.Core.List.{append_assoc, append-nil}
use debian_pygobject.Registration.{Run, run_list, run_then, run_class_init}

no_rank : (k : ℕ) → k < 0 → ⊥
no_rank k h = omega arith

-- The types from the root down to a type.
pub data Line (parent : ℕ → ℕ) : ℕ → List ℕ → Type 0 where
  root : {t : ℕ} → (parent t == 0) ≡ true → Line parent t (t ∷ [])
  below :
      {t : ℕ} {ts : List ℕ}
      → (parent t == 0) ≡ false
      → Line parent (parent t) ts
      → Line parent t (ts ++ (t ∷ []))

abbrev pub along : (ℕ → List ℕ) → List ℕ → List ℕ
along inits [] = []
along inits (t ∷ ts) = inits t ++ along inits ts

along-append :
    (inits : ℕ → List ℕ) (ts : List ℕ) (t : ℕ)
    → along inits (ts ++ (t ∷ [])) ≡ along inits ts ++ inits t
along-append inits [] t = append-nil (inits t)
along-append inits (u ∷ ts) t =
    ap (λ fs. inits u ++ fs) (along-append inits ts t)
    ∙ sym (append_assoc (inits u) (along inits ts) (inits t))

abbrev cons_call : ℕ → Run → Run
cons_call f r = record { called = f ∷ r.called; failed = r.failed }

cons_call-then : (f : ℕ) (a b : Run) → cons_call f (run_then a b) ≡ run_then (cons_call f a) b
unfolding run_then
cons_call-then f a b = elim (Bool-cases a.failed) [
  | inl stops ↦ rw (stops, run_then)
  | inr goes_on ↦ rw (goes_on, run_then)
]

run_list-append :
    (fails : ℕ → Bool) (fs gs : List ℕ)
    → run_list fails (fs ++ gs) ≡ run_then (run_list fails fs) (run_list fails gs)
unfolding run_list run_then
run_list-append fails [] gs = refl
run_list-append fails (f ∷ fs) gs = elim (Bool-cases (fails f)) [
  | inl stops ↦ rw (stops, run_list, run_then)
  | inr goes_on ↦
      rw (goes_on, run_list)
        (ap (cons_call f) (run_list-append fails fs gs)
          ∙ cons_call-then f (run_list fails fs) (run_list fails gs))
]

-- If the way up from a type ends, with fuel for each type on it, pyg_run_class_init calls the functions
-- of the types from the root down, and of each type in the order in which they are kept, up to the first
-- that fails.
pub run_class_init-Line :
    (parent rank : ℕ → ℕ) (inits : ℕ → List ℕ) (fails : ℕ → Bool)
    → ((t : ℕ) → (parent t == 0) ≡ false → rank (parent t) < rank t)
    → (fuel t : ℕ) → rank t < fuel
    → (ts : List ℕ) × Line parent t ts
      × (run_class_init fuel parent inits fails t ≡ some (run_list fails (along inits ts)))
unfolding run_class_init
run_class_init-Line parent rank inits fails up Prim.Native.Nat.zero t h =
    elim (no_rank (rank t) h) [ ]
run_class_init-Line parent rank inits fails up (suc fuel) t h = elim (Bool-cases (parent t == 0)) [
  | inl top ↦ (
    t ∷ [],
    root top,
    rw (top, run_class_init) (ap (λ fs. some (run_list fails fs)) (sym (append-nil (inits t)))),
  )
  | inr more ↦
      let (ts, line, same) =
        run_class_init-Line parent rank inits fails up fuel (parent t)
          (omega (arith, h, up t more)) in
      (
        ts ++ (t ∷ []),
        below more line,
        rw (more, same, run_class_init)
            (ap some (
              sym (run_list-append fails (along inits ts) (inits t))
              ∙ ap (run_list fails) (sym (along-append inits ts t)))),
      )
]
