-- ===== src/Classes.antt =====
-- The Python classes of GObject types, in gobject/pygobject.c: pygobject_lookup_class,
-- pygobject_new_with_interfaces, pyg_type_get_bases and pygobject_register_class. Classes and types
-- are addresses.
pub mod Merged
pub mod Found
pub mod Same
pub mod Again
use debian_pygobject.Base.{
  ℕ, suc, ◌+◌, Bool, true, false, not, ◌||◌, Option, none, some, List, [], ◌∷◌, ◌++◌, map, drop,
  ◌==◌, if◌then◌else◌, update, CString, codes, bytes_eq,
}
use debian_pygobject.Slots.{Slots, inherit_slots}

-- A class, as far as this code sets it up: its bases, `__gtype__` (0 if there is none), the module and
-- the name within, and the slots that pygobject_inherit_slots fills.
pub record Class : Type 0 where
  pub bases : List ℕ
  pub gtype : ℕ
  pub mod_name : CString
  pub name : CString
  pub slots : Slots

-- The classes; the data of a type under pygobject_class_key and pyginterface_type_key; the attributes
-- of modules that were set, newest first; the functions registered for the names of types, by the class
-- that each gives.
pub record World : Type 0 where
  pub next : ℕ
  pub classes : ℕ → Class
  pub class_of : ℕ → Option ℕ
  pub interface_of : ℕ → Option ℕ
  pub attributes : List (CString × CString × ℕ)
  pub custom : CString → Option (Option ℕ)

-- GLib's parent, interfaces and name of a type; pygi_type_import_by_g_type;
-- whether Python makes a class for a type and whether PyType_Ready succeeds; which modules are there;
-- the types G_TYPE_INTERFACE and G_TYPE_OBJECT; the class GInterface; and the slots of PyGObject_Type
-- and PyBaseObject_Type.
pub record Env : Type 0 where
  pub parent : ℕ → ℕ
  pub interfaces : ℕ → List ℕ
  pub type_name : ℕ → CString
  pub imported : ℕ → Option ℕ
  pub creates : ℕ → Bool
  pub ready : ℕ → Bool
  pub has_module : CString → Bool
  pub interface_gtype : ℕ
  pub object_gtype : ℕ
  pub ginterface_class : ℕ
  pub gobject_slots : Slots
  pub object_slots : Slots

-- The class, or NULL; a read through a null pointer; or too little fuel.
pub data Looked : Type 0 where
  looked : Option ℕ → Looked
  null_dereference out_of_fuel : Looked

pub data Bases : Type 0 where
  bases : List ℕ → Bases
  no_bases no_fuel : Bases

-- g_str_has_prefix, with what follows the prefix.
unfoldable pub after_prefix : CString → CString → Option CString
after_prefix [] s = some s
after_prefix (p ∷ ps) [] = none
after_prefix (p ∷ ps) (c ∷ cs) = let rest = after_prefix ps cs in if p == c then rest else none

unfoldable pub module_and_name : CString → CString × CString
unfolding after_prefix
module_and_name s = elim (after_prefix (codes "Gtk") s) [
  | some n ↦ (codes "gtk", n)
  | none ↦ elim (after_prefix (codes "Gdk") s) [
    | some n ↦ (codes "gtk.gdk", n)
    | none ↦ elim (after_prefix (codes "Atk") s) [
      | some n ↦ (codes "atk", n)
      | none ↦ elim (after_prefix (codes "Pango") s) [
        | some n ↦ (codes "pango", n)
        | none ↦ (codes "__main__", s)
      ]
    ]
  ]
]

-- The class that is made: `python_slots` are those that Python gives to a class with these bases. The
-- slots that are copied from the parent as they are, and the documentation, are left out.
unfoldable pub new_class : Env → ℕ → List ℕ → (List ℕ → Slots) → World → Class
unfolding module_and_name inherit_slots
new_class e t bs python_slots w =
    let (mod_name, name) = module_and_name (e.type_name t) in
    record {
      bases = bs;
      gtype = t;
      mod_name = mod_name;
      name = name;
      slots =
          inherit_slots false e.gobject_slots e.object_slots
            (some (map (λ b. (w.classes b).slots) bs)) (python_slots bs);
    }

-- The class is put in its module, if that is there.
unfoldable pub add_attribute : Env → Class → ℕ → World → World
add_attribute e k c w =
    if e.has_module k.mod_name
    then record w { attributes = (k.mod_name, k.name, c) ∷ w.attributes }
    else w

-- pygobject_new_with_interfaces, once the bases are there.
unfoldable pub make_class : Env → (List ℕ → Slots) → ℕ → List ℕ → World → Looked × World
unfolding new_class add_attribute
make_class e python_slots t bs w =
    let c = w.next in
    let k = new_class e t bs python_slots w in
    let made = record w { next = suc c; classes = update w.classes c k } in
    if not (e.creates t)
    then (looked none, w)
    else if not (e.ready t)
    then (looked none, made)
    else (
      looked (some c),
      record (add_attribute e k c made) { class_of = update w.class_of t (some c) },
    )

unfoldable pub cons_class : ℕ → Bases → Bases
cons_class c (bases bs) = bases (c ∷ bs)
cons_class c no_bases = no_bases
cons_class c no_fuel = no_fuel

unfoldable pub cons_base : Looked → (World → Bases × World) → World → Bases × World
unfolding cons_class
cons_base (looked none) rest w = (no_bases, w)
cons_base null_dereference rest w = (no_bases, w)
cons_base out_of_fuel rest w = (no_fuel, w)
cons_base (looked (some c)) rest w = let (b, w') = rest w in (cons_class c b, w')

module _ (look : ℕ → World → Looked × World) where
  -- The classes of some types; NULL is referenced like a class.
  unfoldable pub lookup_all : List ℕ → World → Bases × World
  unfolding cons_base
  lookup_all [] w = (bases [], w)
  lookup_all (t ∷ ts) w = let (l, w') = look t w in cons_base l (lookup_all ts) w'

  -- The parent comes first; `no_bases` is NULL for G_TYPE_OBJECT, which the callers read through.
  unfoldable pub type_get_bases : Env → ℕ → World → Bases × World
  unfolding lookup_all
  type_get_bases e t w =
      if t == e.object_gtype then (no_bases, w) else lookup_all (e.parent t ∷ e.interfaces t) w

  unfoldable pub new_with_interfaces : Env → (List ℕ → Slots) → ℕ → World → Looked × World
  unfolding type_get_bases make_class
  new_with_interfaces e python_slots t w =
      let (found, w') = type_get_bases e t w in
      elim found [
        | bases bs ↦ make_class e python_slots t bs w'
        | no_bases ↦ (null_dereference, w')
        | no_fuel ↦ (out_of_fuel, w')
      ]

-- A class that was made now is kept under the other key too.
unfoldable pub keep_class : ℕ → Looked × World → Looked × World
keep_class t (looked c, w) = (looked c, record w { interface_of = update w.interface_of t c })
keep_class t (null_dereference, w) = (null_dereference, w)
keep_class t (out_of_fuel, w) = (out_of_fuel, w)

-- The class that is kept for a type, or imported.
unfoldable pub kept_class : Env → ℕ → World → Option ℕ
kept_class e t w = elim (w.class_of t) [
  | some c ↦ some c
  | none ↦ elim (w.interface_of t) [ some c ↦ some c | none ↦ e.imported t ]
]

-- What pygobject_lookup_class finds without making a class.
unfoldable pub known_class : Env → ℕ → World → Option ℕ
unfolding kept_class
known_class e t w =
    if t == e.interface_gtype then some e.ginterface_class else elim (w.custom (e.type_name t)) [
      | none ↦ kept_class e t w
      | some none ↦ kept_class e t w
      | some (some c) ↦ some c
    ]

-- pyg_type_get_custom of gobject/pygtype.c removes the function that it has called.
unfoldable pub drop_custom : Env → ℕ → World → World
drop_custom e t w = if t == e.interface_gtype then w else elim (w.custom (e.type_name t)) [
  | none ↦ w
  | some c ↦ record w { custom = λ s. if bytes_eq s (e.type_name t) then none else w.custom s }
]

unfoldable pub lookup_class : ℕ → Env → (List ℕ → Slots) → ℕ → World → Looked × World
unfolding known_class drop_custom keep_class new_with_interfaces
lookup_class Prim.Native.Nat.zero e python_slots t w = (out_of_fuel, w)
lookup_class (suc fuel) e python_slots t w = elim (known_class e t w) [
  | some c ↦ (looked (some c), drop_custom e t w)
  | none ↦
      keep_class t (
        new_with_interfaces (lookup_class fuel e python_slots) e python_slots t (drop_custom e t w))
]
