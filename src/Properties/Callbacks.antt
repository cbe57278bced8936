-- ===== src/Properties/Callbacks.antt =====
-- pyg_object_set_property and pyg_object_get_property of gobject/gobjectmodule.c: GLib asks a class
-- that was made in Python for a property, and a method of the wrapper answers.
use debian_pygobject.Base.{
  ℕ, ◌≡◌, refl, sym, ap, ◌∙◌, ◌+◌, ◌-◌, ◌<◌, Bool, true, false, not, Option, none, some, ◌==◌,
  ==_refl, ==_iff, if◌then◌else◌, arith, Bool-cases, inl, inr,
}
use debian_pygobject.Values.{Object, Answer, stored, refused, unset, out_of_fuel}
use debian_pygobject.Values.ToPython.{
  Converted, object, no_object, null_dereference, lookup_out_of_fuel,
}
use debian_pygobject.Wrapper.{World, new_full, py_incref, py_decref, set_wrapper}
use debian_pygobject.Wrapper

-- How often the GIL is still taken, whether an exception was printed, what became of the GValue if it
-- was to be set, whether a null pointer was read, and the wrappers afterwards.
pub record Answered : Type 0 where
  pub gil : ℕ
  pub printed : Bool
  pub value : Option Answer
  pub crashed : Bool
  pub world : World

abbrev pub answered : Bool → Option Answer → World → Answered
answered p v W = record { gil = 0; printed = p; value = v; crashed = false; world = W }

abbrev pub crashes : World → Answered
crashes W = record (answered false none W) { gil = 1; crashed = true }

-- The call and the release of the wrapper. `method` is do_set_property of a wrapper with a param spec
-- and a value; it is false for an exception, and it may change the wrappers.
unfoldable pub call_setter :
    (ℕ → ℕ → Object → World → Bool × World) → ℕ → ℕ → Converted → World → Answered
unfolding py_decref
call_setter method w pspec (object o) W =
    let (fine, after) = method w pspec o W in answered (not fine) none (py_decref w after)
-- The call not_stored, which is printed, and the release of the missing value reads it.
call_setter method w pspec no_object W = record (crashes (py_decref w W)) { printed = true }
call_setter method w pspec null_dereference W = crashes W
call_setter method w pspec lookup_out_of_fuel W = crashes W

unfoldable pub object_set_property :
    (ℕ → ℕ → Object → World → Bool × World) → Wrapper.Env → ℕ → ℕ → Converted → World → Answered
unfolding new_full call_setter
object_set_property method we o pspec v W =
    let (w, held) = new_full we (some o) none W in
    elim w [ none ↦ answered false none held | some a ↦ call_setter method a pspec v held ]

-- pyg_value_from_pyobject is below 0.
unfoldable pub not_stored : Answer → Bool
not_stored (stored c) = false
not_stored (refused c) = true
not_stored unset = true
not_stored out_of_fuel = false

-- `method` is do_get_property of a wrapper with a param spec, and `from` is pyg_value_from_pyobject
-- into the GValue.
unfoldable pub call_getter :
    (ℕ → ℕ → World → Option Object × World) → (Object → Answer) → ℕ → ℕ → World → Answered
unfolding py_decref not_stored
call_getter method from w pspec W =
    let (ret, after) = method w pspec W in
    elim ret [
      | none ↦ answered true none (py_decref w after)
      | some r ↦ answered (not_stored (from r)) (some (from r)) (py_decref w after)
    ]

unfoldable pub object_get_property :
    (ℕ → ℕ → World → Option Object × World)
    → (Object → Answer)
    → Wrapper.Env
    → ℕ
    → ℕ
    → World
    → Answered
unfolding new_full call_getter
object_get_property method from we o pspec W =
    let (w, held) = new_full we (some o) none W in
    elim w [ none ↦ answered false none held | some a ↦ call_getter method from a pspec held ]

incref_wrapper : (w : ℕ) (W : World) → ((py_incref w W).wrappers w).refs ≡ (W.wrappers w).refs + 1
unfolding py_incref set_wrapper
incref_wrapper w W = rw (==_refl w) refl

not_last : (n : ℕ) → 0 < n → (n + 1 == 1) ≡ false
not_last n alive = ground arith

sub_one : (n : ℕ) → n + 1 - 1 ≡ n
sub_one n = omega arith

decref_others :
    (w v : ℕ) (W : World)
    → ((W.wrappers w).refs == 1) ≡ false
    → (py_decref w W).wrappers v
      ≡ (if v == w then record (W.wrappers w) { refs = (W.wrappers w).refs - 1 } else W.wrappers v)
unfolding py_decref set_wrapper
decref_others w v W more = rw (more, py_decref)

released_wrapper :
    (w : ℕ) (W : World)
    → record ((py_incref w W).wrappers w) { refs = ((py_incref w W).wrappers w).refs - 1 }
      ≡ W.wrappers w
unfolding py_incref set_wrapper
released_wrapper w W =
    let r = W.wrappers w in rw (==_refl w) (ap (λ n. record r { refs = n }) (sub_one r.refs))

other_wrapper : (w v : ℕ) (W : World) → (v == w) ≡ false → (py_incref w W).wrappers v ≡ W.wrappers v
unfolding py_incref set_wrapper
other_wrapper w v W differ = rw (differ) refl

held_refs :
    (w v : ℕ) (W : World)
    → 0 < (W.wrappers w).refs
    → (py_decref w (py_incref w W)).wrappers v ≡ W.wrappers v
held_refs w v W alive =
    let more : (((py_incref w W).wrappers w).refs == 1) ≡ false =
      rw (incref_wrapper w W) (not_last (W.wrappers w).refs alive) in
    decref_others w v (py_incref w W) more ∙ elim (Bool-cases (v == w)) [
      | inl same ↦ rw (same) (released_wrapper w W ∙ ap W.wrappers (sym ((==_iff v w).0 same)))
      | inr differ ↦ rw (differ) (other_wrapper w v W differ)
    ]

new_full-held :
    (we : Wrapper.Env) (o w : ℕ) (W : World)
    → W.wrapper_of o ≡ some w
    → new_full we (some o) none W ≡ (some w, py_incref w W)
unfolding new_full
new_full-held we o w W there = rw (there, new_full)

object_set_property-held :
    (method : ℕ → ℕ → Object → World → Bool × World) (we : Wrapper.Env) (o w pspec : ℕ)
    (x : Converted) (W : World)
    → W.wrapper_of o ≡ some w
    → object_set_property method we o pspec x W ≡ call_setter method w pspec x (py_incref w W)
unfolding object_set_property
object_set_property-held method we o w pspec x W there =
    ap
      (λ (p : Option ℕ × World). elim p.0 [
        | none ↦ answered false none p.1
        | some a ↦ call_setter method a pspec x p.1
      ])
      (new_full-held we o w W there)

-- While a wrapper of the object lives, and do_set_property leaves the wrappers as it finds them, GLib's
-- request calls that method once with this wrapper, the param spec and the value, prints an exception
-- just if the method ends with one, and leaves every wrapper as it was.
pub object_set_property-called :
    (fine : ℕ → ℕ → Object → Bool) (we : Wrapper.Env) (o w pspec : ℕ) (x : Object) (W : World)
    → W.wrapper_of o ≡ some w
    → 0 < (W.wrappers w).refs
    → let r = object_set_property (λ a p y V. (fine a p y, V)) we o pspec (object x) W in
      (r.printed ≡ not (fine w pspec x))
      × (r.gil ≡ 0)
      × ((v : ℕ) → r.world.wrappers v ≡ W.wrappers v)
unfolding call_setter
object_set_property-called fine we o w pspec x W there alive =
    rw (object_set_property-held (λ a p y V. (fine a p y, V)) we o w pspec (object x) W there)
      (refl, refl, λ v. held_refs w v W alive)
