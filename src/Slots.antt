-- ===== src/Slots.antt =====
-- The slots that a class registered for a GType inherits from its bases: pygobject_inherit_slots and
-- pygobject_find_slot_for of gobject/pygobject.c. A slot holds the address of a function or NULL.
pub mod Inherited
use debian_pygobject.Base.{
  ℕ, Bool, true, false, not, ◌&&◌, ◌||◌, Option, none, some, is_some, List, [], ◌∷◌, ◌==◌,
  if◌then◌else◌, update,
}

-- The slots of a type, by number.
abbrev pub Slots : Type 0
Slots = ℕ → Option ℕ

-- The array slot_offsets: tp_richcompare, tp_compare, tp_hash, tp_iter, tp_repr, tp_str, tp_print.
abbrev pub slot_offsets : List ℕ
slot_offsets = 0 ∷ (1 ∷ (2 ∷ (3 ∷ (4 ∷ (5 ∷ (6 ∷ []))))))

-- Equality of pointers.
unfoldable pub same : Option ℕ → Option ℕ → Bool
same none none = true
same none (some b) = false
same (some a) none = false
same (some a) (some b) = a == b

-- A result of the loop: the slot found, if any, or a conflict.
pub data Found : Type 0 where
  found : Option ℕ → Found
  conflict : Found

-- The loop over the bases, with the values of the slot in PyGObject_Type and PyBaseObject_Type.
unfoldable pub find_loop : Option ℕ → Option ℕ → Option ℕ → List (Option ℕ) → Found
unfolding same
find_loop gobject object found_slot [] = found found_slot
find_loop gobject object found_slot (slot ∷ slots) =
    let skipped = find_loop gobject object found_slot slots in
    let taken = find_loop gobject object slot slots in
    if not (is_some slot)
    then skipped
    else (if same slot gobject || same slot object
        then skipped
        else (if is_some found_slot && not (same found_slot slot) then conflict else taken))

unfoldable pub store_found : Found → Option ℕ → Option ℕ
store_found conflict own = own
store_found (found none) own = own
store_found (found (some f)) own = some f

-- pygobject_find_slot_for: the value of the type's slot afterwards, from its own value and those of
-- its bases.
unfoldable pub find_slot_for : Bool → Option ℕ → Option ℕ → Option ℕ → List (Option ℕ) → Option ℕ
unfolding find_loop store_found
find_slot_for check_for_present gobject object own slots =
    if check_for_present && is_some own
    then own
    else store_found (find_loop gobject object none slots) own

abbrev pub slots_of : ℕ → List Slots → List (Option ℕ)
slots_of k [] = []
slots_of k (b ∷ bs) = b k ∷ slots_of k bs

unfoldable pub inherit_loop : Bool → Slots → Slots → List Slots → List ℕ → Slots → Slots
unfolding find_slot_for
inherit_loop check_for_present gobject object bases [] type = type
inherit_loop check_for_present gobject object bases (k ∷ ks) type =
    inherit_loop check_for_present gobject object bases ks (
      update type k
        (find_slot_for check_for_present (gobject k) (object k) (type k) (slots_of k bases)))

-- pygobject_inherit_slots; `none` is NULL for the bases.
unfoldable pub inherit_slots : Bool → Slots → Slots → Option (List Slots) → Slots → Slots
unfolding inherit_loop
inherit_slots check_for_present gobject object none type = type
inherit_slots check_for_present gobject object (some bases) type =
    inherit_loop check_for_present gobject object bases slot_offsets type
