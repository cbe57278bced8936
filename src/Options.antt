-- ===== src/Options.antt =====
-- Option groups and contexts: glib/pygoptiongroup.c, glib/pygoptioncontext.c and
-- pyglib_option_group_transfer_group of glib/pyglib.c. Wrappers are addresses; the calls that hand a
-- group to a context are logged, newest first.
pub mod Entries
pub mod Parsing
pub mod Groups
pub mod Given
pub mod History
use debian_pygobject.Base.{
  ℕ, ◌+◌, ◌-◌, Bool, true, false, not, ◌&&◌, ◌||◌, Option, none, some, is_some, List, [], ◌∷◌, ◌==◌,
  if◌then◌else◌, update, CString,
}

-- PyGOptionGroup, with the references to it; `strings` are the copies that its entries point to, of
-- which that of a missing string is a null pointer; and how often destroy_g_group has run.
pub record Group : Type 0 where
  pub group : Option ℕ
  pub other_owner : Bool
  pub is_in_context : Bool
  pub callback : Option ℕ
  pub strings : List (Option CString)
  pub refs : ℕ
  pub destroyed : ℕ

-- PyGOptionContext
pub record Context : Type 0 where
  pub context : Option ℕ
  pub main_group : Option ℕ

-- g_option_context_set_main_group and g_option_context_add_group with the wrapper of the group;
-- Py_CLEAR of the main group of a context; and g_option_context_free.
pub data Call : Type 0 where
  sets_main adds clears_main : ℕ → ℕ → Call
  frees_context : ℕ → Call

pub record World : Type 0 where
  pub groups : ℕ → Group
  pub contexts : ℕ → Context
  pub calls : List Call

pub data OptionError : Type 0 where
  bad_argument not_owned already_freed expected_list not_a_group in_context : OptionError

pub data Result {ℓ} (A : Type ℓ) : Type ℓ where
  ok : A → Result A
  err : OptionError → Result A

-- A wrapper that __init__ has run on; the group is at the address `g`.
unfoldable pub group_init : ℕ → ℕ → Group
group_init g callback = record {
  group = some g;
  other_owner = false;
  is_in_context = false;
  callback = some callback;
  strings = [];
  refs = 1;
  destroyed = 0;
}

-- pyglib_option_group_new
unfoldable pub option_group_new : ℕ → Group
option_group_new g = record (group_init g 0) { other_owner = true; callback = none }

unfoldable pub check_if_owned : Group → Bool
check_if_owned x = x.other_owner

-- destroy_g_group without the release of the wrapper, which GLib calls for a group that it frees.
unfoldable pub destroy_group : Group → Group
destroy_group x = record x {
  group = none;
  callback = none;
  strings = [];
  destroyed = x.destroyed + 1;
}

-- A group that is ours and in no context is freed, and GLib calls destroy_g_group from there.
unfoldable pub group_dealloc : Group → Group
unfolding destroy_group
group_dealloc x =
    let gone = record x { refs = 0 } in
    if not x.other_owner && not x.is_in_context
    then elim x.group [ none ↦ gone | some g ↦ destroy_group gone ]
    else gone

-- Py_DECREF of a group.
unfoldable pub group_decref : Group → Group
unfolding group_dealloc
group_decref x = if x.refs == 1 then group_dealloc x else record x { refs = x.refs - 1 }

unfoldable pub group_incref : Group → Group
group_incref x = record x { refs = x.refs + 1 }

-- destroy_g_group
unfoldable pub destroy_g_group : Group → Group
unfolding destroy_group group_decref
destroy_g_group x = if x.is_in_context then group_decref (destroy_group x) else destroy_group x

-- `none` is the null pointer for a group that is in a context; the group itself may be null.
unfoldable pub transfer_group : Group → Option (Option ℕ × Group)
unfolding group_incref
transfer_group x =
    if x.is_in_context
    then none
    else some (x.group, record (group_incref x) { is_in_context = true })

unfoldable pub set_group : ℕ → Group → World → World
set_group g x w = record w { groups = update w.groups g x }

unfoldable pub log : Call → World → World
log c w = record w { calls = c ∷ w.calls }

-- The transfer of a group, and the reference that the caller takes then; the error, if there is one.
-- The null pointer of a group that is freed reads like that of a group in a context.
unfoldable pub take_group : (World → World) → ℕ → World → Option OptionError × World
unfolding transfer_group set_group group_incref
take_group keep g w = elim (transfer_group (w.groups g)) [
  | none ↦ (some in_context, w)
  | some (none, x) ↦ (some in_context, set_group g x w)
  | some (some p, x) ↦ (none, keep (set_group g (group_incref x) w))
]

-- What set_main_group and add_group do with the group once they have it.
unfoldable pub keep_main : ℕ → ℕ → World → World
unfolding log
keep_main c g w =
    log (sets_main c g)
      (record w { contexts = update w.contexts c (record (w.contexts c) { main_group = some g }) })

unfoldable pub keep_added : ℕ → ℕ → World → World
unfolding log
keep_added c g w = log (adds c g) w

-- The argument is the wrapper of a group, if it is one.
unfoldable pub set_main_group : ℕ → Option ℕ → World → Option OptionError × World
unfolding take_group keep_main
set_main_group c none w = (some not_a_group, w)
set_main_group c (some g) w = take_group (keep_main c g) g w

unfoldable pub add_group : ℕ → Option ℕ → World → Option OptionError × World
unfolding take_group keep_added
add_group c none w = (some not_a_group, w)
add_group c (some g) w = take_group (keep_added c g) g w

unfoldable pub get_main_group : ℕ → World → Option ℕ × World
unfolding set_group group_incref
get_main_group c w = elim (w.contexts c).main_group [
  | none ↦ (none, w)
  | some g ↦ (some g, set_group g (group_incref (w.groups g)) w)
]

-- pyg_option_context_dealloc up to g_option_context_free, which destroys the groups of the context.
unfoldable pub clear_main : ℕ → World → World
unfolding set_group group_decref log
clear_main c w = elim (w.contexts c).main_group [
  | none ↦ w
  | some g ↦ log (clears_main c g) (
      set_group g (group_decref (w.groups g))
        (record w { contexts = update w.contexts c (record (w.contexts c) { main_group = none }) }))
]

unfoldable pub context_dealloc : ℕ → World → World
unfolding clear_main log
context_dealloc c w =
    let cleared = clear_main c w in
    elim (cleared.contexts c).context [
      | none ↦ cleared
      | some p ↦ log (frees_context c) (record cleared {
        contexts = update cleared.contexts c (record (cleared.contexts c) { context = none });
      })
    ]
