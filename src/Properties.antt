-- ===== src/Properties.antt =====
-- The properties of a GObject from Python, in gobject/pygobject.c: the methods that get and set them,
-- the attributes of `props`, and the keyword arguments of the constructor.
pub mod Attributes
pub mod Init
pub mod New
pub mod Callbacks
pub mod Frozen
pub mod Same
use debian_pygobject.Base.{
  ℕ, suc, ◌+◌, ◌-◌, Bool, true, false, not, Option, none, some, List, [], ◌∷◌, if◌then◌else◌,
  CString,
}
use debian_pygobject.Values.{Object, Content, Answer, stored, refused, unset, out_of_fuel}
use debian_pygobject.Values.ToPython.{Converted}

-- GParamSpec, with its flags and the type of its values; `id` tells the specs apart.
pub record ParamSpec : Type 0 where
  pub id : ℕ
  pub readable : Bool
  pub writable : Bool
  pub construct_only : Bool
  pub value_type : ℕ

pub data PropertyError : Type 0 where
  bad_arguments not_initialized no_such_property not_readable not_writable : PropertyError
  only_in_constructor cannot_convert cannot_delete no_instance abstract_type : PropertyError
  no_gtype no_class cannot_create : PropertyError

-- A GObject whose state is an `S`, if there is one, and how often its notifications are frozen.
pub record World (S : Type 0) : Type 0 where
  pub obj : Option S
  pub frozen : ℕ

-- GLib: g_object_class_find_property for the class of the object, g_object_get_property and
-- g_object_set_property; and pyg_param_gvalue_from_pyobject into a new GValue of the type of the spec,
-- with pyg_param_gvalue_as_pyobject.
pub record Env (S : Type 0) : Type 0 where
  pub find_property : CString → Option ParamSpec
  pub get : S → CString → Content
  pub set : S → CString → Content → S
  -- what g_value_init makes; it stays if there is no GObject to ask
  pub initial : ParamSpec → Content
  pub from_pyobject : ParamSpec → Object → Answer
  -- pyg_value_from_pyobject, which the constructor calls instead
  pub plain_from_pyobject : ParamSpec → Object → Answer
  pub as_pyobject : ParamSpec → Content → Converted
  -- pyg_value_as_pyobject, which get_properties calls instead
  pub plain_as_pyobject : ParamSpec → Content → Converted

-- What a call returns: what a conversion gives, or None; an exception; or nothing, as it read through a
-- null pointer or the conversion did not end.
pub data Result {ℓ} (A : Type ℓ) : Type ℓ where
  ok : A → Result A
  err : PropertyError → Result A
  crashed : Result A

unfoldable pub cons_result : Result Converted → Result (List Converted) → Result (List Converted)
cons_result (ok x) (ok xs) = ok (x ∷ xs)
cons_result (ok x) (err f) = err f
cons_result (ok x) crashed = crashed
cons_result (err f) rest = err f
cons_result crashed rest = crashed

module _ {S : Type 0} where
  unfoldable pub set_property_from_pspec : Env S → S → CString → ParamSpec → Object → Result S
  set_property_from_pspec e s name p o =
      if p.construct_only
      then err only_in_constructor
      else if not p.writable
      then err not_writable
      else elim (e.from_pyobject p o) [
        | stored c ↦ ok (e.set s name c)
        | refused c ↦ err cannot_convert
        | unset ↦ err cannot_convert
        | out_of_fuel ↦ crashed
      ]

  -- The lines of pygobject_get_property after the test of the object.
  unfoldable pub read_property : Env S → S → CString → Result Converted
  read_property e s name = elim (e.find_property name) [
    | none ↦ err no_such_property
    | some p ↦ if not p.readable then err not_readable else ok (e.as_pyobject p (e.get s name))
  ]

  -- `name` is `none` where the arguments are not one string.
  unfoldable pub get_property : Env S → Option CString → World S → Result Converted
  unfolding read_property
  get_property e none w = err bad_arguments
  get_property e (some name) w = elim w.obj [
    | none ↦ err not_initialized
    | some s ↦ read_property e s name
  ]

  -- One round of the loop of pygobject_get_properties; an argument that is no string is `none`.
  unfoldable pub read_item : Env S → S → Option CString → Result Converted
  read_item e s none = err bad_arguments
  read_item e s (some name) = elim (e.find_property name) [
    | none ↦ err no_such_property
    | some p ↦
        if not p.readable then err not_readable else ok (e.plain_as_pyobject p (e.get s name))
  ]

  unfoldable pub read_items : Env S → S → List (Option CString) → Result (List Converted)
  unfolding read_item cons_result
  read_items e s [] = ok []
  read_items e s (x ∷ xs) = cons_result (read_item e s x) (read_items e s xs)

  -- The object is not tested: its class is read through a null pointer if there is none.
  unfoldable pub get_properties : Env S → List (Option CString) → World S → Result (List Converted)
  unfolding read_items
  get_properties e [] w = err bad_arguments
  get_properties e (x ∷ xs) w = elim w.obj [ none ↦ crashed | some s ↦ read_items e s (x ∷ xs) ]

  -- From finding the property on, for one that has to be there.
  unfoldable pub write_property : Env S → S → CString → Object → Result S
  unfolding set_property_from_pspec
  write_property e s name o = elim (e.find_property name) [
    | none ↦ err no_such_property
    | some p ↦ set_property_from_pspec e s name p o
  ]

  -- The result with the world after it: a failure leaves the object as it was.
  unfoldable pub finish_write : World S → Result S → Result (Unit {0}) × World S
  finish_write w (ok s) = (ok tt, record w { obj = some s })
  finish_write w (err f) = (err f, w)
  finish_write w crashed = (crashed, w)

  unfoldable pub set_property :
      Env S → Option (CString × Object) → World S → Result (Unit {0}) × World S
  unfolding write_property finish_write
  set_property e none w = (err bad_arguments, w)
  set_property e (some (name, o)) w = elim w.obj [
    | none ↦ (err not_initialized, w)
    | some s ↦ finish_write w (write_property e s name o)
  ]

  -- The loop over the keyword arguments: the first failure ends it.
  unfoldable pub write_properties : Env S → S → List (CString × Object) → Result (Unit {0}) × S
  unfolding write_property
  write_properties e s [] = (ok tt, s)
  write_properties e s ((name, o) ∷ kws) =
      let rest = λ (s' : S). write_properties e s' kws in
      elim (write_property e s name o) [
        | ok s' ↦ rest s'
        | err f ↦ (err f, s)
        | crashed ↦ (crashed, s)
      ]

  unfoldable pub freeze_notify : World S → World S
  freeze_notify w = record w { frozen = suc w.frozen }

  unfoldable pub thaw_notify : World S → World S
  thaw_notify w = record w { frozen = w.frozen - 1 }

  unfoldable pub set_properties :
      Env S → List (CString × Object) → World S → Result (Unit {0}) × World S
  unfolding write_properties freeze_notify thaw_notify
  set_properties e kws w = elim w.obj [
    | none ↦ (err not_initialized, w)
    | some s ↦
        let (r, s') = write_properties e s kws in
        (r, thaw_notify (record (freeze_notify w) { obj = some s' }))
  ]

  -- The method of the same name: the test of the object, and the call.
  unfoldable pub freeze_notify_method : World S → Result (Unit {0}) × World S
  unfolding freeze_notify
  freeze_notify_method w = elim w.obj [
    | none ↦ (err not_initialized, w)
    | some s ↦ (ok tt, freeze_notify w)
  ]

  unfoldable pub thaw_notify_method : World S → Result (Unit {0}) × World S
  unfolding thaw_notify
  thaw_notify_method w = elim w.obj [
    | none ↦ (err not_initialized, w)
    | some s ↦ (ok tt, thaw_notify w)
  ]
