-- ===== src/Properties/Attributes.antt =====
-- The attributes of `props` in gobject/pygobject.c: PyGProps_getattro, PyGProps_setattro and
-- build_parameter_list.
use debian_pygobject.Base.{
  ℕ, ◌+◌, ◌-◌, not, Option, none, some, List, if◌then◌else◌, map, CString, codes, bytes_eq,
}
use debian_pygobject.Values.{Object}
use debian_pygobject.Values.ToPython.{Converted}
use debian_pygobject.Signals.ClassClosure.{underscores}
use debian_pygobject.Properties.{
  ParamSpec, not_readable, cannot_delete, no_instance, Env, World, Result, ok, err, crashed,
  set_property_from_pspec, finish_write,
}

-- A list of names, a GParamSpec, the value of a property, or what Python's own lookup gives.
pub data Attribute : Type 0 where
  names : List CString → Attribute
  param_spec : ℕ → Attribute
  property_value : Converted → Attribute
  generic : Attribute

unfoldable pub parameter_list : List CString → List CString
unfolding underscores
parameter_list properties = map underscores properties

-- The class that `props` refers to: the names of its properties, and g_object_class_find_property.
pub record PropsClass : Type 0 where
  pub properties : List CString
  pub find_pspec : CString → Option ParamSpec

-- g_type_class_ref and g_type_class_unref of a class, by the references that are held to it.
abbrev pub class_ref : ℕ → ℕ
class_ref n = n + 1

abbrev pub class_unref : ℕ → ℕ
class_unref n = n - 1

-- What setting does: a property, or Python's own attribute.
pub data Assigned (S : Type 0) : Type 0 where
  by_property : Result (Unit {0}) × World S → Assigned S
  by_generic : Assigned S

module _ {S : Type 0} where
  -- `refs` are the references to the class before. The attribute, and the references at the end. The outer
  -- option is the instance, which a class attribute has not, the inner one its GObject.
  unfoldable pub getattro :
      Env S → PropsClass → ℕ → Option CString → Option (Option S) → Result Attribute × ℕ
  unfolding parameter_list
  getattro e cls refs none instance_ = (ok generic, refs)
  getattro e cls refs (some name) instance_ =
      let taken = class_ref refs in
      if bytes_eq name (codes "__members__")
      then (ok (names (parameter_list cls.properties)), taken)
      else let refs' = class_unref taken in
        elim (cls.find_pspec name) [
          | none ↦ (ok generic, refs')
          | some p ↦ if not p.readable then (err not_readable, refs') else elim instance_ [
            | none ↦ (ok (param_spec p.id), refs')
            | some none ↦ (ok (property_value (e.as_pyobject p (e.initial p))), refs')
            | some (some s) ↦ (ok (property_value (e.as_pyobject p (e.get s name))), refs')
          ]
        ]

  -- The attribute is `none` if it is no string, and the value if it is deleted; the outer option of the
  -- world is the instance. A wrapper without GObject is read through a null pointer.
  unfoldable pub setattro :
      Env S → Option CString → Option Object → Option (World S) → Result (Assigned S)
  unfolding set_property_from_pspec finish_write
  setattro e name none instance_ = err cannot_delete
  setattro e none (some o) instance_ = ok by_generic
  setattro e (some name) (some o) none = err no_instance
  setattro e (some name) (some o) (some w) = elim w.obj [
    | none ↦ crashed
    | some s ↦ elim (e.find_property name) [
      | none ↦ ok by_generic
      | some p ↦ ok (by_property (finish_write w (set_property_from_pspec e s name p o)))
    ]
  ]
