-- ===== src/Wrapper.antt =====
-- The Python wrappers of GObjects, from gobject/pygobject.c: creation, the instance dictionary, the
-- switch to a toggle reference, and the end of a wrapper. Objects, wrappers and classes are
-- addresses.
pub mod Invariant
pub mod Attach
pub mod Release
pub mod Steps
pub mod Rewrap
use debian_pygobject.Base.{
  ℕ, suc, ◌+◌, ◌-◌, Bool, true, false, not, ◌&&◌, Option, none, some, List, [], ◌∷◌, ◌==◌,
  if◌then◌else◌, update,
}

-- PyGObject: `toggle` is the bit PYGOBJECT_USING_TOGGLE_REF, `refs` the Python reference count (0
-- for a wrapper that is gone), `inst_dict` whether the dictionary is there.
pub record Wrapper : Type 0 where
  pub obj : Option ℕ
  pub inst_dict : Bool
  pub toggle : Bool
  pub class : ℕ
  pub refs : ℕ

-- PyGObjectData: the class to wrap the object in again, and the closures that are watched.
pub record InstData : Type 0 where
  pub type : ℕ
  pub closures : List ℕ

-- The calls that manage the references to an object, as they are made to GLib.
pub data Call : Type 0 where
  g_object_ref g_object_unref g_object_ref_sink : ℕ → Call
  add_toggle_ref remove_toggle_ref : ℕ → ℕ → Call
  -- g_object_newv, which gives a reference to the new object
  g_object_newv : ℕ → Call
  -- a registered sink function, called with the object
  sinkfunc : ℕ → ℕ → Call

-- The wrappers; the two entries that this code keeps with each object, under
-- `pygobject_wrapper_key` and `pygobject_instance_data_key`; the registered sink functions by type;
-- the references that were taken to classes; and the calls made so far, newest first.
pub record World : Type 0 where
  pub next : ℕ
  pub wrappers : ℕ → Wrapper
  pub wrapper_of : ℕ → Option ℕ
  pub inst_data : ℕ → Option InstData
  pub sink_funcs : List (ℕ × ℕ)
  pub class_refs : ℕ → ℕ
  pub calls : List Call

-- What GLib and the type registry answer at the time of a call.
pub record Env : Type 0 where
  pub type_of : ℕ → ℕ
  pub is_a : ℕ → ℕ → Bool
  pub initially_unowned : ℕ → Bool
  pub floating : ℕ → Bool
  -- `pygobject_lookup_class`, and the flag Py_TPFLAGS_HEAPTYPE of a class
  pub lookup_class : ℕ → ℕ
  pub is_heap_type : ℕ → Bool

unfoldable pub log : Call → World → World
log c W = record W { calls = c ∷ W.calls }

unfoldable pub set_wrapper : ℕ → Wrapper → World → World
set_wrapper w r W = record W { wrappers = update W.wrappers w r }

unfoldable pub py_incref : ℕ → World → World
unfolding set_wrapper
py_incref w W = set_wrapper w (record (W.wrappers w) { refs = (W.wrappers w).refs + 1 }) W

unfoldable pub find_sinkfunc : Env → ℕ → List (ℕ × ℕ) → Option ℕ
find_sinkfunc e o [] = none
find_sinkfunc e o ((t, f) ∷ fs) = if e.is_a (e.type_of o) t then some f else find_sinkfunc e o fs

unfoldable pub pygobject_sink : Env → ℕ → World → World
unfolding find_sinkfunc log
pygobject_sink e o W = elim (find_sinkfunc e o W.sink_funcs) [
  | some f ↦ log (sinkfunc f o) W
  | none ↦
      if e.initially_unowned o && not (e.floating o)
      then log (g_object_ref o) W
      else (if e.floating o then log (g_object_ref_sink o) W else W)
]

-- New functions go behind those that are there, and the first that fits is called.
unfoldable pub register_sinkfunc : ℕ → ℕ → List (ℕ × ℕ) → List (ℕ × ℕ)
register_sinkfunc t f [] = (t, f) ∷ []
register_sinkfunc t f (g ∷ gs) = g ∷ register_sinkfunc t f gs

-- `o` is `self->obj`.
unfoldable pub switch_to_toggle_ref : ℕ → ℕ → World → World
unfolding set_wrapper py_incref log
switch_to_toggle_ref w o W =
    if (W.wrappers w).toggle
    then W
    else log (g_object_unref o) (
        log (add_toggle_ref o w)
          (py_incref w (set_wrapper w (record (W.wrappers w) { toggle = true }) W)))

unfoldable pub register_wrapper : Env → ℕ → ℕ → World → World
unfolding pygobject_sink switch_to_toggle_ref
register_wrapper e w o W =
    let sunk = pygobject_sink e o W in
    let tied = record sunk { wrapper_of = update sunk.wrapper_of o (some w) } in
    if (tied.wrappers w).inst_dict then switch_to_toggle_ref w o tied else tied

-- The data of an object, made with the wrapper's class where it is missing.
unfoldable pub get_inst_data : ℕ → World → World
get_inst_data w W = elim (W.wrappers w).obj [
  | none ↦ W
  | some o ↦ elim (W.inst_data o) [
    | some d ↦ W
    | none ↦ record W {
      inst_data =
          update W.inst_data o (some (record { type = (W.wrappers w).class; closures = [] }));
      class_refs = update W.class_refs (W.wrappers w).class (W.class_refs (W.wrappers w).class + 1);
    }
  ]
]

-- The class for a new wrapper: that of the object's data, or what is registered for the type of the
-- given GObjectClass or of the object.
unfoldable pub wrapper_class : Env → ℕ → Option ℕ → World → ℕ
wrapper_class e o g_class W = elim (W.inst_data o) [
  | some d ↦ d.type
  | none ↦ elim g_class [ some t ↦ e.lookup_class t | none ↦ e.lookup_class (e.type_of o) ]
]

-- A heap type is referenced by each instance.
unfoldable pub incref_class : Env → ℕ → World → World
incref_class e tp W =
    if e.is_heap_type tp
    then record W { class_refs = update W.class_refs tp (W.class_refs tp + 1) }
    else W

-- PyObject_GC_New, the fields, and `g_object_ref(obj)`.
unfoldable pub place_wrapper : ℕ → ℕ → World → World
unfolding log
place_wrapper o tp W = log (g_object_ref o) (record W {
  next = suc W.next;
  wrappers =
      update W.wrappers W.next
        (record { obj = some o; inst_dict = false; toggle = false; class = tp; refs = 1 });
})

unfoldable pub make_wrapper : Env → ℕ → ℕ → World → World
unfolding incref_class place_wrapper register_wrapper
make_wrapper e o tp W = register_wrapper e W.next o (place_wrapper o tp (incref_class e tp W))

-- `none` is None, for the null pointer.
unfoldable pub new_full : Env → Option ℕ → Option ℕ → World → Option ℕ × World
unfolding py_incref wrapper_class make_wrapper
new_full e none g_class W = (none, W)
new_full e (some o) g_class W = elim (W.wrapper_of o) [
  | some w ↦ (some w, py_incref w W)
  | none ↦ (some W.next, make_wrapper e o (wrapper_class e o g_class W) W)
]

-- `tp_alloc`: a wrapper without an object, which `__init__` is to give it.
unfoldable pub alloc_wrapper : ℕ → World → ℕ × World
alloc_wrapper tp W = (
  W.next,
  record W {
    next = suc W.next;
    wrappers =
        update W.wrappers W.next
          (record { obj = none; inst_dict = false; toggle = false; class = tp; refs = 1 });
  },
)

-- pygobject_constructv: `o` is the object that g_object_newv makes, during which the wrapper stays
-- without one; a wrapper that has its object sets the properties of that.
unfoldable pub constructv : Env → ℕ → ℕ → World → World
unfolding set_wrapper log register_wrapper
constructv e w o W = elim (W.wrappers w).obj [
  | none ↦
      register_wrapper e w o
        (set_wrapper w (record (W.wrappers w) { obj = some o }) (log (g_object_newv o) W))
  | some p ↦ W
]

-- The dictionary is new: with an object, the reference becomes a toggle reference.
unfoldable pub add_inst_dict : ℕ → World → World
unfolding set_wrapper switch_to_toggle_ref
add_inst_dict w W =
    let with_dict = set_wrapper w (record (W.wrappers w) { inst_dict = true }) W in
    elim (W.wrappers w).obj [ none ↦ with_dict | some o ↦ switch_to_toggle_ref w o with_dict ]

unfoldable pub get_dict : ℕ → World → World
unfolding add_inst_dict
get_dict w W = if (W.wrappers w).inst_dict then W else add_inst_dict w W

-- `creates` says whether the setattro of the parent type, which is Python's, makes the dictionary.
unfoldable pub setattro : Bool → ℕ → World → World
unfolding add_inst_dict
setattro creates w W = if not (W.wrappers w).inst_dict && creates then add_inst_dict w W else W

unfoldable pub clear : ℕ → World → World
unfolding set_wrapper log
clear w W =
    let bare = record (W.wrappers w) { obj = none; inst_dict = false } in
    elim (W.wrappers w).obj [
      | none ↦ set_wrapper w bare W
      | some o ↦
          let untied = record W { wrapper_of = update W.wrapper_of o none } in
          if (W.wrappers w).inst_dict
          then set_wrapper w (record bare { toggle = false }) (log (remove_toggle_ref o w) untied)
          else set_wrapper w bare (log (g_object_unref o) untied)
    ]

unfoldable pub dealloc : ℕ → World → World
unfolding get_inst_data clear set_wrapper
dealloc w W =
    let cleared = clear w (get_inst_data w W) in
    set_wrapper w (record (cleared.wrappers w) { refs = 0 }) cleared

-- Py_DECREF: the last reference ends the wrapper.
unfoldable pub py_decref : ℕ → World → World
unfolding dealloc set_wrapper
py_decref w W =
    if (W.wrappers w).refs == 1
    then dealloc w W
    else set_wrapper w (record (W.wrappers w) { refs = (W.wrappers w).refs - 1 }) W

unfoldable pub toggle_notify : Bool → ℕ → World → World
unfolding py_incref py_decref
toggle_notify is_last_ref w W = if is_last_ref then py_decref w W else py_incref w W
