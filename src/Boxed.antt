-- ===== src/Boxed.antt =====
-- The wrappers of boxed values, gobject/pygboxed.c. Wrappers, values and classes are addresses;
-- g_boxed_copy gives a new address.
pub mod Owned
use debian_pygobject.Base.{
  ℕ, ◌+◌, Bool, true, false, not, ◌&&◌, ◌||◌, Option, none, some, List, [], ◌∷◌, ◌==◌,
  if◌then◌else◌, or_else,
}

-- PyGBoxed, with its class.
pub record Boxed : Type 0 where
  pub class : ℕ
  pub boxed : Option ℕ
  pub gtype : ℕ
  pub free_on_dealloc : Bool

-- The wrappers that are alive, the next addresses of a wrapper and of a copy, and the calls of
-- g_boxed_copy and g_boxed_free, with the value that was made or freed.
pub record World : Type 0 where
  pub wrappers : List (ℕ × Boxed)
  pub next_wrapper : ℕ
  pub next_value : ℕ
  pub copied : List ℕ
  pub freed : List ℕ

-- The classes: the one attached to a type, the one that a typelib gives, and PyGBoxed_Type.
pub record Classes : Type 0 where
  pub attached : ℕ → Option ℕ
  pub imported : ℕ → Option ℕ
  pub fallback : ℕ

pub data NewResult : Type 0 where
  -- NULL, for arguments that are refused
  refused : NewResult
  py_none : NewResult
  wrapper : ℕ → NewResult

unfoldable pub boxed_class : Classes → ℕ → ℕ
boxed_class c t = elim (or_else (c.attached t) (c.imported t)) [ some tp ↦ tp | none ↦ c.fallback ]

unfoldable pub place_boxed : Boxed → World → NewResult × World
place_boxed b w = (
  wrapper (w.next_wrapper),
  record w { wrappers = (w.next_wrapper, b) ∷ w.wrappers; next_wrapper = w.next_wrapper + 1 },
)

-- pyg_boxed_new, past its two checks, for a value that is there.
unfoldable pub wrap_boxed : Classes → ℕ → ℕ → Bool → Bool → World → NewResult × World
unfolding boxed_class place_boxed
wrap_boxed c t v true own_ref w =
    place_boxed
      (record {
        class = boxed_class c t;
        boxed = some (w.next_value);
        gtype = t;
        free_on_dealloc = own_ref;
      })
      (record w { next_value = w.next_value + 1; copied = w.next_value ∷ w.copied })
wrap_boxed c t v false own_ref w =
    place_boxed
      (record { class = boxed_class c t; boxed = some v; gtype = t; free_on_dealloc = own_ref }) w

unfoldable pub boxed_new : Classes → ℕ → Option ℕ → Bool → Bool → World → NewResult × World
unfolding wrap_boxed
boxed_new c t v copy_boxed own_ref w =
    if (t == 0) || (copy_boxed && not own_ref)
    then (refused, w)
    else elim v [ none ↦ (py_none, w) | some b ↦ wrap_boxed c t b copy_boxed own_ref w ]

unfoldable pub find_boxed : ℕ → List (ℕ × Boxed) → Option Boxed
find_boxed a [] = none
find_boxed a ((i, b) ∷ ws) = if i == a then some b else find_boxed a ws

-- pyg_boxed_copy of the wrapper at an address.
unfoldable pub boxed_copy : Classes → ℕ → World → Option NewResult × World
unfolding boxed_new find_boxed
boxed_copy c a w = elim (find_boxed a (w.wrappers)) [
  | none ↦ (none, w)
  | some b ↦ let (r, w') = boxed_new c (b.gtype) (b.boxed) true true w in (some r, w')
]

unfoldable pub remove_boxed : ℕ → List (ℕ × Boxed) → List (ℕ × Boxed)
remove_boxed a [] = []
remove_boxed a ((i, b) ∷ ws) = if i == a then ws else (i, b) ∷ remove_boxed a ws

-- The value that g_boxed_free gets.
unfoldable pub free_boxed : Boxed → List ℕ → List ℕ
free_boxed b freed =
    if b.free_on_dealloc then (elim b.boxed [ none ↦ freed | some v ↦ v ∷ freed ]) else freed

-- pyg_boxed_dealloc
unfoldable pub boxed_dealloc : ℕ → World → World
unfolding find_boxed remove_boxed free_boxed
boxed_dealloc a w = elim (find_boxed a (w.wrappers)) [
  | none ↦ w
  | some b ↦ record w { wrappers = remove_boxed a (w.wrappers); freed = free_boxed b (w.freed) }
]

unfoldable pub set_boxed : ℕ → Boxed → List (ℕ × Boxed) → List (ℕ × Boxed)
set_boxed a c [] = []
set_boxed a c ((i, b) ∷ ws) = if i == a then (i, c) ∷ ws else (i, b) ∷ set_boxed a c ws

-- pyg_boxed_init, which then raises NotImplementedError. Python code can call it on any wrapper.
unfoldable pub boxed_init : ℕ → World → World
unfolding find_boxed set_boxed
boxed_init a w = elim (find_boxed a (w.wrappers)) [
  | none ↦ w
  | some b ↦ record w {
    wrappers =
        set_boxed a (record b { boxed = none; gtype = 0; free_on_dealloc = false }) (w.wrappers);
  }
]
