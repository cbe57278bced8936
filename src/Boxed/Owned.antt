-- ===== src/Boxed/Owned.antt =====
-- The ownership of boxed values over any history of wrappers being made, copied and deallocated.
use debian_pygobject.Base.{
  ℕ, ◌+◌, ◌≡◌, sym, ◌∙◌, refl, inl, inr, true, false, Option, none, some, List, [], ◌∷◌, ◌==◌,
  if◌then◌else◌, arith, times, Bool-cases, Option-cases,
}
use mathlib.Core.Option.{some-injective}
use debian_pygobject.Boxed.{
  Boxed, World, Classes, place_boxed, wrap_boxed, boxed_new, find_boxed, boxed_copy, remove_boxed,
  free_boxed, boxed_dealloc, set_boxed, boxed_init,
}

-- How many live wrappers own a value.
abbrev pub owns : ℕ → Boxed → ℕ
owns v b =
    if b.free_on_dealloc then (elim b.boxed [ none ↦ 0 | some x ↦ if x == v then 1 else 0 ]) else 0

abbrev pub owners : ℕ → List (ℕ × Boxed) → ℕ
owners v [] = 0
owners v ((i, b) ∷ ws) = owns v b + owners v ws

owners-remove :
    (v a : ℕ) (ws : List (ℕ × Boxed)) (b : Boxed)
    → find_boxed a ws ≡ some b
    → owners v ws ≡ owns v b + owners v (remove_boxed a ws)
unfolding find_boxed remove_boxed
owners-remove v a [] b e = ground (arith, e)
owners-remove v a ((i, c) ∷ ws) b e = elim (Bool-cases (i == a)) [
  | inl h ↦
      let first : (if i == a then some c else find_boxed a ws) ≡ some c = rw h refl in
      let cb : c ≡ b = some-injective c b (sym first ∙ e) in rw (h, cb) refl
  | inr h ↦
      let rest : find_boxed a ws ≡ some b = ground (arith, e) in
      rw h (ground (arith, owners-remove v a ws b rest))
]

times-free :
    (v : ℕ) (b : Boxed) (freed : List ℕ) → times v (free_boxed b freed) ≡ owns v b + times v freed
unfolding free_boxed
times-free v b freed = ground arith

-- The values that were handed over to the wrappers, and those that a wrapper owned and forgot, the last
-- first.
pub record Ledger : Type 0 where
  pub given : List ℕ
  pub lost : List ℕ

-- What __init__ makes the wrapper at an address forget.
abbrev pub forgotten : ℕ → World → List ℕ → List ℕ
forgotten a w lost = elim (find_boxed a w.wrappers) [ none ↦ lost | some b ↦ free_boxed b lost ]

-- A caller may hand over a value with `own_ref`, and lend one without it; Python code may call
-- __init__ of any wrapper.
pub data Step : Ledger → World → Ledger → World → Type 0 where
  copies :
      (c : Classes) (t v : ℕ) {l : Ledger} {w : World}
      → Step l w l (boxed_new c t (some v) true true w).1
  takes_over :
      (c : Classes) (t v : ℕ) {l : Ledger} {w : World}
      → (t == 0) ≡ false
      → Step l w (record l { given = v ∷ l.given }) (boxed_new c t (some v) false true w).1
  borrows :
      (c : Classes) (t v : ℕ) {l : Ledger} {w : World}
      → Step l w l (boxed_new c t (some v) false false w).1
  copies_wrapper : (c : Classes) (a : ℕ) {l : Ledger} {w : World} → Step l w l (boxed_copy c a w).1
  inits :
      (a : ℕ) {l : Ledger} {w : World}
      → Step l w (record l { lost = forgotten a w l.lost }) (boxed_init a w)
  deallocates : (a : ℕ) {l : Ledger} {w : World} → Step l w l (boxed_dealloc a w)

pub data Reach (w : World) : Ledger → World → Type 0 where
  here : Reach w (record { given = []; lost = [] }) w
  next :
      {l : Ledger} {v : World} {l' : Ledger} {u : World}
      → Reach w l v
      → Step l v l' u
      → Reach w l' u

-- What was copied and given is what was freed, what the live wrappers own and what was forgotten.
abbrev pub IsBalanced : Ledger → World → Type 0
IsBalanced l w =
    (v : ℕ)
    → times v w.copied + times v l.given ≡ times v w.freed + owners v w.wrappers + times v l.lost

owners-set :
    (v a : ℕ) (ws : List (ℕ × Boxed)) (b c : Boxed)
    → find_boxed a ws ≡ some b
    → c.free_on_dealloc ≡ false
    → owners v ws ≡ owns v b + owners v (set_boxed a c ws)
unfolding find_boxed set_boxed
owners-set v a [] b c e free = ground (arith, e)
owners-set v a ((i, d) ∷ ws) b c e free = elim (Bool-cases (i == a)) [
  | inl h ↦
      let first : (if i == a then some d else find_boxed a ws) ≡ some d = rw h refl in
      let db : d ≡ b = some-injective d b (sym first ∙ e) in rw (h, db) (rw free (omega arith))
  | inr h ↦
      let rest : find_boxed a ws ≡ some b = ground (arith, e) in
      rw h (ground (arith, owners-set v a ws b c rest free))
]

find-set :
    (a : ℕ) (c : Boxed) (ws : List (ℕ × Boxed)) (b : Boxed)
    → find_boxed a ws ≡ some b
    → find_boxed a (set_boxed a c ws) ≡ some c
unfolding find_boxed set_boxed
find-set a c [] b e = ground (arith, e)
find-set a c ((i, d) ∷ ws) b e = elim (Bool-cases (i == a)) [
  | inl h ↦ rw (h, find_boxed) (rw h refl)
  | inr h ↦
      let rest : find_boxed a ws ≡ some b = ground (arith, e) in
      rw (h, find_boxed) (rw h (find-set a c ws b rest))
]

new-copy :
    (c : Classes) (t : ℕ) (x : Option ℕ) (given : Ledger) (w : World)
    → IsBalanced given w
    → IsBalanced given (boxed_new c t x true true w).1
unfolding boxed_new wrap_boxed place_boxed
new-copy c t x given w h v = ground (arith, h v)

new-own :
    (c : Classes) (t x : ℕ) (given : Ledger) (w : World)
    → (t == 0) ≡ false
    → IsBalanced given w
    → IsBalanced (record given { given = x ∷ given.given }) (boxed_new c t (some x) false true w).1
unfolding boxed_new wrap_boxed place_boxed
new-own c t x given w ne h v = ground (arith, h v)

new-borrow :
    (c : Classes) (t x : ℕ) (given : Ledger) (w : World)
    → IsBalanced given w
    → IsBalanced given (boxed_new c t (some x) false false w).1
unfolding boxed_new wrap_boxed place_boxed
new-borrow c t x given w h v = ground (arith, h v)

copy-keeps :
    (c : Classes) (a : ℕ) (given : Ledger) (w : World)
    → IsBalanced given w
    → IsBalanced given (boxed_copy c a w).1
unfolding boxed_copy
copy-keeps c a given w h = elim (Option-cases (find_boxed a (w.wrappers))) [
  | inl e ↦ rw (e, boxed_copy) h
  | inr (b, e) ↦ rw (e, boxed_copy) (new-copy c (b.gtype) (b.boxed) given w h)
]

dealloc-keeps :
    (a : ℕ) (given : Ledger) (w : World) → IsBalanced given w → IsBalanced given (boxed_dealloc a w)
unfolding boxed_dealloc
dealloc-keeps a given w h = elim (Option-cases (find_boxed a (w.wrappers))) [
  | inl e ↦ rw (e, boxed_dealloc) h
  | inr (b, e) ↦
      rw (e, boxed_dealloc)
        (λ v. omega (arith, h v, owners-remove v a (w.wrappers) b e, times-free v b (w.freed)))
]

forgot_none :
    (a : ℕ) (w : World) (lost : List ℕ) → find_boxed a w.wrappers ≡ none → forgotten a w lost ≡ lost
forgot_none a w lost e = rw (forgotten, e) refl

forgot_some :
    (a : ℕ) (w : World) (lost : List ℕ) (b : Boxed)
    → find_boxed a w.wrappers ≡ some b
    → forgotten a w lost ≡ free_boxed b lost
forgot_some a w lost b e = rw (forgotten, e) refl

init-keeps :
    (a : ℕ) (l : Ledger) (w : World)
    → IsBalanced l w
    → IsBalanced (record l { lost = forgotten a w l.lost }) (boxed_init a w)
unfolding boxed_init
init-keeps a l w h = elim (Option-cases (find_boxed a w.wrappers)) [
  | inl e ↦ rw (e, boxed_init, forgot_none a w l.lost e) h
  | inr (b, e) ↦
      rw (e, boxed_init, forgot_some a w l.lost b e)
        (λ v. omega (
          arith,
          h v,
          owners-set v a w.wrappers b
              (record b { boxed = none; gtype = 0; free_on_dealloc = false }) e refl,
          times-free v b l.lost,
        ))
]

Step-keeps :
    {l : Ledger} {w : World} {l' : Ledger} {u : World}
    → Step l w l' u
    → IsBalanced l w
    → IsBalanced l' u
Step-keeps (copies c t v {l} {w}) h = new-copy c t (some v) l w h
Step-keeps (takes_over c t v {l} {w} ne) h = new-own c t v l w ne h
Step-keeps (borrows c t v {l} {w}) h = new-borrow c t v l w h
Step-keeps (copies_wrapper c a {l} {w}) h = copy-keeps c a l w h
Step-keeps (inits a {l} {w}) h = init-keeps a l w h
Step-keeps (deallocates a {l} {w}) h = dealloc-keeps a l w h

-- In a history that begins without wrappers, calls of __init__ included, every value was freed as often
-- as it was copied or handed over, less the live wrappers that own it and the wrappers that owned it
-- when __init__ made them forget it, which leak it. So nothing is freed twice, and a value that was only
-- lent is not freed.
pub Reach-owned :
    {w u : World} {l : Ledger}
    → w.wrappers ≡ []
    → w.copied ≡ []
    → w.freed ≡ []
    → Reach w l u
    → IsBalanced l u
Reach-owned none_alive none_copied none_freed here =
    λ v. rw (none_alive, none_copied, none_freed) refl
Reach-owned none_alive none_copied none_freed (next r s) =
    Step-keeps s (Reach-owned none_alive none_copied none_freed r)

-- A wrapper that owns a value frees it when it ends; but after `__init__`, which only raises an
-- error, it has forgotten the value and frees nothing.
pub boxed_init_leaks :
    (a v : ℕ) (b : Boxed) (w : World)
    → find_boxed a (w.wrappers) ≡ some b
    → b.boxed ≡ some v
    → b.free_on_dealloc ≡ true
    → ((boxed_dealloc a w).freed ≡ v ∷ w.freed)
      × ((boxed_dealloc a (boxed_init a w)).freed ≡ w.freed)
unfolding boxed_init boxed_dealloc free_boxed
boxed_init_leaks a v b w e holds owned =
    let forgot = record b { boxed = none; gtype = 0; free_on_dealloc = false } in
    (
      rw (e, boxed_dealloc, owned, holds),
      rw (e, boxed_init, find-set a forgot (w.wrappers) b e, boxed_dealloc)
          (rw (e, boxed_init) refl),
    )
