-- ===== src/Registration/Register.antt =====
-- pyg_type_register and add_properties of gobject/gobjectmodule.c: a new GType for a Python class.
use debian_pygobject.Base.{
  ℕ, Bool, true, false, Option, none, some, List, [], ◌∷◌, ◌++◌, map, ◌==◌, if◌then◌else◌, CString,
  ltb,
}
use debian_pygobject.CInt.{ℤ}
use debian_pygobject.Values.{Glib, TypeArg}
use debian_pygobject.Values.TypeFrom.{type_from_object}
use debian_pygobject.Registration.{Base, add_interfaces, run_class_init}
use debian_pygobject.Registration.TypeName.{type_name_for_class}
use debian_pygobject.Registration.NewSignals.{
  SignalValue, SignalCall, not_dict, bad_key, bad_format, bad_type, bad_properties,
  cannot_create_type, class_init_failed, Result, ok, err, add_signals,
}

-- A value of `__gproperties__` that is a tuple: its size, the type if its first three items can be
-- read, and the last item if it is an int.
pub record PropertyTuple : Type 0 where
  pub size : ℕ
  pub prop_type : Option TypeArg
  pub flags : Option ℤ

-- An attribute of the class that has to be a dict.
pub data DictAttr (A : Type 0) : Type 0 where
  absent no_dict : DictAttr A
  entries : List A → DictAttr A

-- The class: its `__gtype__`, `__module__` and name, its bases, and the two dicts.
pub record PyClass : Type 0 where
  pub gtype : TypeArg
  pub class_module : Option CString
  pub tp_name : CString
  pub bases : List Base
  pub gsignals : DictAttr (Option CString × SignalValue)
  pub gproperties : DictAttr (Option CString × Option PropertyTuple)
  pub has_doc : Bool

-- What GLib answers: whether a type has a name, the type that g_type_register_static makes of a parent
-- and a name, and the questions of the other functions; and `create`, which is create_property.
pub record Env : Type 0 where
  pub glib : Glib
  pub is_taken : CString → Bool
  pub register_static : ℕ → CString → ℕ
  pub new_constructor : ℕ → Bool
  pub parent_has : ℕ → ℕ → Bool
  pub has_info : ℕ → Bool
  pub creates : CString → Bool
  pub lookup : CString → ℕ
  pub create : CString → ℕ → PropertyTuple → ℤ → Option ℕ
  pub inits : ℕ → List ℕ
  pub init_fails : ℕ → Bool

-- What is done, in order.
pub data Event : Type 0 where
  registers : ℕ → CString → Event
  sets_class sets_gtype keeps_constructor sets_doc : Event
  adds_interface installs inits_class : ℕ → Event
  tells : SignalCall → Event
  replaces_gsignals : Event
  deletes_gproperties deletes_gsignals : Event

-- A part of the work: how it ends, and what it does.
abbrev pub Stage : Type 0
Stage = Result (Unit {0}) × List Event

-- One part after another, unless the first failed.
unfoldable pub then_stage : Stage → Stage → Stage
then_stage (ok u, done) (r, later) = (r, done ++ later)
then_stage (err f, done) later = (err f, done)

-- One entry of `__gproperties__`: the GParamSpec.
unfoldable pub read_property_entry : Env → Option CString → Option PropertyTuple → Result ℕ
unfolding type_from_object
read_property_entry e none v = err bad_key
read_property_entry e (some name) none = err bad_format
read_property_entry e (some name) (some v) =
    if ltb v.size 4 then err bad_format else elim v.prop_type [
      | none ↦ err bad_format
      | some a ↦ if type_from_object e.glib a == 0 then err bad_type else elim v.flags [
        | none ↦ err bad_format
        | some flags ↦ elim (e.create name (type_from_object e.glib a) v flags) [
          | none ↦ err bad_properties
          | some spec ↦ ok spec
        ]
      ]
    ]

unfoldable pub add_properties : Env → List (Option CString × Option PropertyTuple) → Stage
unfolding read_property_entry
add_properties e [] = (ok tt, [])
add_properties e ((name, v) ∷ es) =
    let rest = add_properties e es in
    elim (read_property_entry e name v) [
      | err f ↦ (err f, [])
      | ok spec ↦ (rest.0, installs spec ∷ rest.1)
    ]

unfoldable pub signals_stage : Env → DictAttr (Option CString × SignalValue) → Stage
unfolding add_signals
signals_stage e absent = (ok tt, [])
signals_stage e no_dict = (err not_dict, [])
signals_stage e (entries es) =
    let (r, calls) = add_signals e.glib e.creates e.lookup es [] in
    elim r [
      | err f ↦ (err f, map tells calls)
      | ok d ↦ (ok tt, map tells calls ++ (replaces_gsignals ∷ []))
    ]

unfoldable pub properties_stage : Env → DictAttr (Option CString × Option PropertyTuple) → Stage
unfolding add_properties then_stage
properties_stage e absent = (ok tt, [])
properties_stage e no_dict = (err not_dict, [])
properties_stage e (entries es) = then_stage (add_properties e es) (ok tt, deletes_gproperties ∷ [])

unfoldable pub interfaces_stage : Env → Bool → ℕ → List Base → Stage
unfolding add_interfaces
interfaces_stage e new_interfaces parent_type bases = (
  ok tt,
  map adds_interface (add_interfaces new_interfaces (e.parent_has parent_type) e.has_info bases),
)

-- `depth` is the fuel for the types above the new one.
unfoldable pub class_init_stage : ℕ → Env → ℕ → Stage
unfolding run_class_init
class_init_stage depth e t = elim (run_class_init depth e.glib.parent e.inits e.init_fails t) [
  | none ↦ (err class_init_failed, [])
  | some r ↦ (if r.failed then err class_init_failed else ok tt, map inits_class r.called)
]

-- The last lines: `__gsignals__` is deleted if there was one.
unfoldable pub last_stage : DictAttr (Option CString × SignalValue) → Stage
last_stage absent = (ok tt, [])
last_stage no_dict = (ok tt, deletes_gsignals ∷ [])
last_stage (entries es) = (ok tt, deletes_gsignals ∷ [])

-- What is done to the class before its interfaces are added.
unfoldable pub class_events : Env → PyClass → ℕ → List Event
class_events e c parent_type =
    sets_class
    ∷ (sets_gtype
        ∷ ((if e.new_constructor parent_type then keeps_constructor ∷ [] else [])
            ++ (if c.has_doc then [] else sets_doc ∷ [])))

-- From the new type on.
unfoldable pub fill_type : ℕ → Env → PyClass → ℕ → ℕ → Stage
unfolding then_stage class_events interfaces_stage signals_stage properties_stage class_init_stage
    last_stage
fill_type depth e c parent_type t =
    then_stage (ok tt, class_events e c parent_type)
      (then_stage (interfaces_stage e false parent_type c.bases) (
        then_stage (signals_stage e c.gsignals) (
          then_stage (properties_stage e c.gproperties) (
            then_stage (interfaces_stage e true parent_type c.bases)
              (then_stage (class_init_stage depth e t) (last_stage c.gsignals))))))

unfoldable pub given_or_new : Env → PyClass → Option CString → CString
unfolding type_name_for_class
given_or_new e c none = type_name_for_class e.is_taken c.class_module c.tp_name
given_or_new e c (some name) = name

-- `type_name` is the name that the caller asks for, if there is one.
unfoldable pub type_register : ℕ → Env → PyClass → Option CString → Stage
unfolding type_from_object given_or_new then_stage fill_type
type_register depth e c type_name =
    let parent_type = type_from_object e.glib c.gtype in
    let name = given_or_new e c type_name in
    let t = e.register_static parent_type name in
    if parent_type == 0
    then (err bad_type, [])
    else if t == 0
    then (err cannot_create_type, [])
    else then_stage (ok tt, registers parent_type name ∷ []) (fill_type depth e c parent_type t)
