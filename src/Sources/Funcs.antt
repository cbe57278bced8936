-- ===== src/Sources/Funcs.antt =====
-- pyg_source_funcs of glib/pygsource.c: GLib asks a source that is implemented in Python, and methods
-- of the wrapper answer.
use debian_pygobject.Base.{
  ◌≡◌, ◌↔◌, Bool, true, false, ◌&&◌, ◌||◌, Option, none, some, List, [], ◌∷◌, if◌then◌else◌, arith,
  codes, ◌++◌, is_some, CString, Option-cases, inl, inr,
}
use debian_pygobject.CInt.{ℤ, negsuc, zeq, to_int}
use debian_pygobject.Sources.{Source, Env, Handler}

-- An object that a method returns, as PyObject_IsTrue and PyInt_AsLong see it; `none` is an exception.
pub record Item : Type 0 where
  pub truth : Option Bool
  pub number : Option ℤ

-- The end of a call of a method: an exception, a tuple, or another object.
pub data Answer : Type 0 where
  raised : Answer
  tuple : List Item → Answer
  other : Item → Answer

-- What GLib is told; the timeout, if it was written; whether an exception was printed; and whether one
-- is still pending.
pub record Prepared : Type 0 where
  pub ready : Bool
  pub timeout : Option ℤ
  pub printed : Bool
  pub pending : Bool

-- From the label `bail` on, without a timeout.
abbrev pub bails : Bool → Prepared
bails got_err = record { ready = false; timeout = none; printed = got_err; pending = false }

-- An int from PyObject_IsTrue as a gboolean: -1 is true.
unfoldable pub truth : Option Bool → Bool
truth none = true
truth (some b) = b

unfoldable pub is_error {ℓ} : {A : Type ℓ} → Option A → Bool
is_error none = true
is_error (some a) = false

unfoldable pub as_timeout : Option ℤ → ℤ
as_timeout none = negsuc 0
as_timeout (some n) = to_int n

-- PyErr_Occurred also finds the exception that the first item has left.
unfoldable pub prepare_pair : Item → Item → Prepared
unfolding truth is_error as_timeout
prepare_pair a b =
    let timeout = as_timeout b.number in
    if zeq timeout (negsuc 0) && (is_error a.truth || is_error b.number)
    then record { ready = false; timeout = some timeout; printed = true; pending = false }
    else record {
      ready = truth a.truth;
      timeout = some timeout;
      printed = false;
      pending = is_error a.truth;
    }

unfoldable pub prepare : Answer → Prepared
unfolding prepare_pair truth
prepare raised = bails true
prepare (other x) = bails (truth x.truth)
prepare (tuple []) = bails false
prepare (tuple (a ∷ [])) = bails true
prepare (tuple (a ∷ b ∷ [])) = prepare_pair a b
prepare (tuple (a ∷ b ∷ c ∷ xs)) = bails true

-- What `check` and `dispatch` tell GLib.
pub record Told : Type 0 where
  pub ret : Bool
  pub printed : Bool
  pub pending : Bool

-- The truth of a tuple is whether it has items.
unfoldable pub answer_truth : Answer → Option Bool
answer_truth raised = none
answer_truth (tuple []) = some false
answer_truth (tuple (x ∷ xs)) = some true
answer_truth (other x) = x.truth

unfoldable pub check : Answer → Told
unfolding answer_truth truth is_error
check raised = record { ret = false; printed = true; pending = false }
check a = record {
  ret = truth (answer_truth a);
  printed = false;
  pending = is_error (answer_truth a);
}

-- `method` is the method `dispatch`, given the function and the arguments that were registered with
-- the source; two times None if there are none.
unfoldable pub dispatch : (Option Handler → Answer) → Option Handler → Told
unfolding check
dispatch method callback = check (method callback)

-- The method `finalize`, if there is one: whether the call of it raised.
pub record Finalized : Type 0 where
  pub called : Bool
  pub printed : Bool
  pub pending : Bool

unfoldable pub finalize : Option Bool → Finalized
finalize none = record { called = false; printed = false; pending = true }
finalize (some raises) = record { called = true; printed = raises; pending = false }

-- source_repr, without the address at its end.
unfoldable pub description : Env → Source → CString
description e x = elim x.source [
  | none ↦ codes "destroyed"
  | some s ↦ if is_some (e.context x.calls) then codes "attached" else codes "unattached"
]

unfoldable pub source_repr : Env → Source → Option CString → CString
unfolding description
source_repr e x none = codes "<" ++ (description e x ++ codes " glib source at 0x")
source_repr e x (some kind) =
    codes "<" ++ (description e x ++ (codes " glib " ++ (kind ++ codes " source at 0x")))

-- A pair whose first item is true, or cannot be told, and whose second is an int; the timeout is that
-- int as a gint, and it is not -1 if the first item has raised.
abbrev pub IsReady : Answer → ℤ → Type 0
IsReady (tuple (a ∷ b ∷ [])) n =
    (truth a.truth ≡ true)
    × ((z : ℤ) × (b.number ≡ some z) × (to_int z ≡ n))
    × (a.truth ≡ none → zeq n (negsuc 0) ≡ false)
IsReady _ n = ⊥

pair-IsReady :
    (a b : Item) (n : ℤ)
    → ((prepare_pair a b).ready ≡ true) × ((prepare_pair a b).timeout ≡ some n)
    → IsReady (tuple (a ∷ b ∷ [])) n
unfolding prepare_pair truth is_error as_timeout zeq
pair-IsReady a b n h = elim (Option-cases b.number) [
  | inl missing ↦ absurd (ground (arith, h.0))
  | inr (z, there) ↦ (ground (arith), (z, there, ground arith), ground arith)
]

IsReady-pair :
    (a b : Item) (n : ℤ)
    → IsReady (tuple (a ∷ b ∷ [])) n
    → ((prepare_pair a b).ready ≡ true) × ((prepare_pair a b).timeout ≡ some n)
unfolding prepare_pair truth is_error as_timeout zeq
IsReady-pair a b n (t, (z, there, e), told) = ground (arith, told)

-- An exception is left behind only where the source is ready, by the truth of the first item.
pair-pending :
    (a b : Item)
    → (prepare_pair a b).pending ≡ true
    → ((prepare_pair a b).ready ≡ true) × ((prepare_pair a b).printed ≡ false) × (a.truth ≡ none)
unfolding prepare_pair truth is_error as_timeout zeq
pair-pending a b h = (ground arith, ground arith, ground arith)

-- Where the exception that is left behind comes from.
abbrev pub Leaves : Answer → Type 0
Leaves (tuple (a ∷ b ∷ [])) = a.truth ≡ none
Leaves _ = ⊥

-- GLib is told that the source is ready, with a timeout, exactly when the method prepare returned a pair
-- of which the first item is true, or cannot be told and the timeout is not -1, and the second an int
-- that is the timeout as a gint. An exception is still pending afterwards only if GLib is told so and
-- the truth of the first item could not be told.
pub prepare-IsReady :
    (a : Answer) (n : ℤ)
    → (((prepare a).ready ≡ true) × ((prepare a).timeout ≡ some n) ↔ IsReady a n)
      × ((prepare a).pending ≡ true
          → ((prepare a).ready ≡ true) × ((prepare a).printed ≡ false) × Leaves a)
unfolding prepare
prepare-IsReady raised n = ((λ h. cc (h.0), λ h. elim h [ ]), λ h. cc (h))
prepare-IsReady (other x) n = ((λ h. cc (h.0), λ h. elim h [ ]), λ h. cc (h))
prepare-IsReady (tuple []) n = ((λ h. cc (h.0), λ h. elim h [ ]), λ h. cc (h))
prepare-IsReady (tuple (a ∷ [])) n = ((λ h. cc (h.0), λ h. elim h [ ]), λ h. cc (h))
prepare-IsReady (tuple (a ∷ b ∷ [])) n =
    ((pair-IsReady a b n, IsReady-pair a b n), pair-pending a b)
prepare-IsReady (tuple (a ∷ b ∷ c ∷ xs)) n = ((λ h. cc (h.0), λ h. elim h [ ]), λ h. cc (h))
