-- ===== src/WeakRef.antt =====
-- The weak references to GObjects, PyGObjectWeakRef of gobject/pygobject.c: creation, the notifier
-- that the GObject calls when it is finalised, and `unref`. Python objects and GObjects are addresses.
pub mod Steps
use debian_pygobject.Base.{
  ℕ, Bool, true, false, Option, none, some, List, [], ◌∷◌, ◌+◌, ◌-◌, ◌==◌, if◌then◌else◌,
}

-- What a callback gives back: NULL, None, or another object.
pub data Retval : Type 0 where
  failed py_none other : Retval

-- What happens outside the weak reference, the last event first.
pub data Event : Type 0 where
  called : ℕ → Option ℕ → Event
  type_error_set error_printed : Event

-- PyGObjectWeakRef with its count of references. `registered` says if the notifier is installed with
-- the GObject, and `freed` if the memory of the weak reference was given back.
pub record WeakRef : Type 0 where
  pub obj : Option ℕ
  pub callback : Option ℕ
  pub user_data : Option ℕ
  pub have_floating_ref : Bool
  pub refs : ℕ
  pub registered : Bool
  pub freed : Bool
  pub log : List Event

unfoldable pub incref : WeakRef → WeakRef
incref r = record r { refs = r.refs + 1 }

unfoldable pub clear_obj : Option ℕ → WeakRef → WeakRef
clear_obj none r = r
clear_obj (some o) r = record r { registered = false; obj = none }

unfoldable pub clear : WeakRef → WeakRef
unfolding clear_obj
clear r = clear_obj (r.obj) (record r { callback = none; user_data = none })

unfoldable pub dealloc : WeakRef → WeakRef
dealloc r = record (clear r) { freed = true }

-- Py_DECREF: at 0 the weak reference is deallocated.
unfoldable pub decref : WeakRef → WeakRef
decref r =
    let rest = record r { refs = r.refs - 1 } in if rest.refs == 0 then dealloc rest else rest

-- pygobject_weak_ref_new. `garbage` is the field `have_floating_ref` in the memory that
-- PyObject_GC_New gives.
unfoldable pub weak_ref_new : Bool → ℕ → Option ℕ → Option ℕ → WeakRef
weak_ref_new garbage o none user_data = record {
  obj = some o;
  callback = none;
  user_data = user_data;
  have_floating_ref = garbage;
  refs = 1;
  registered = true;
  freed = false;
  log = [];
}
weak_ref_new garbage o (some f) user_data = incref (record {
  obj = some o;
  callback = some f;
  user_data = user_data;
  have_floating_ref = true;
  refs = 1;
  registered = true;
  freed = false;
  log = [];
})

-- The end of `notify` and of `unref`: the reference that the weak reference has to itself.
unfoldable pub drop_floating : WeakRef → WeakRef
unfolding decref
drop_floating r = if r.have_floating_ref then decref (record r { have_floating_ref = false }) else r

-- PyErr_Print prints nothing without an error.
unfoldable pub report : Retval → WeakRef → WeakRef
report failed r = record r { log = error_printed ∷ r.log }
report py_none r = r
report other r = record r { log = error_printed ∷ (type_error_set ∷ r.log) }

unfoldable pub notify_callback : Option ℕ → Retval → WeakRef → WeakRef
unfolding drop_floating report
notify_callback none ret r = r
notify_callback (some f) ret r =
    let after = report ret (record r { log = called f (r.user_data) ∷ r.log }) in
    drop_floating (record after { callback = none; user_data = none })

-- pygobject_weak_ref_notify. The GObject has removed the notifier; `ret` is what the callback
-- returns.
unfoldable pub notify : Retval → WeakRef → WeakRef
unfolding notify_callback
notify ret r = notify_callback (r.callback) ret (record r { registered = false; obj = none })

unfoldable pub unref_obj : Option ℕ → WeakRef → Option WeakRef
unfolding drop_floating
unref_obj none r = none
unref_obj (some o) r = some (drop_floating (record r { registered = false; obj = none }))

-- pygobject_weak_ref_unref; `none` is ValueError.
unfoldable pub unref : WeakRef → Option WeakRef
unfolding unref_obj
unref r = unref_obj (r.obj) r

-- pygobject_weak_ref_traverse, which stops at a negative result only.
unfoldable pub traverse : (ℕ → Bool) → WeakRef → Bool
traverse stops r =
    if elim r.callback [ none ↦ false | some f ↦ stops f ]
    then true
    else elim r.user_data [ none ↦ false | some d ↦ stops d ]
