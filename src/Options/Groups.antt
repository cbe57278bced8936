-- ===== src/Options/Groups.antt =====
-- The references to one wrapper of an option group, and what the operations of glib/pygoptiongroup.c do
-- to them.
use debian_pygobject.Base.{
  Option, none, some, CString, List, Bool, true, false, if◌then◌else◌, ℕ, suc, ◌+◌, ◌<◌, ◌≤◌, ◌≡◌,
  refl, true, false, not, ◌&&◌, ◌||◌, is_some, List, [], ◌∷◌, if◌then◌else◌, ◌==◌, arith,
}
use debian_pygobject.Options.{
  check_if_owned, Group, Call, sets_main, adds, clears_main, frees_context, group_init,
  option_group_new, destroy_group, group_dealloc, group_decref, group_incref, destroy_g_group,
}
use debian_pygobject.Options.Entries.{
  Entry, EntryArg, Added, read_entries, finish_entries, add_entries,
}

-- How often a group was given to a context in the one way and the other, and dropped as main group.
abbrev pub given : ℕ → List Call → ℕ
given g [] = 0
given g (sets_main c h ∷ cs) = if h == g then suc (given g cs) else given g cs
given g (adds c h ∷ cs) = if h == g then suc (given g cs) else given g cs
given g (clears_main c h ∷ cs) = given g cs
given g (frees_context c ∷ cs) = given g cs

abbrev pub cleared : ℕ → List Call → ℕ
cleared g [] = 0
cleared g (clears_main c h ∷ cs) = if h == g then suc (cleared g cs) else cleared g cs
cleared g (sets_main c h ∷ cs) = cleared g cs
cleared g (adds c h ∷ cs) = cleared g cs
cleared g (frees_context c ∷ cs) = cleared g cs

-- The reference that the group has to its wrapper while it is in a context.
abbrev pub own_reference : Group → ℕ
own_reference x = if x.is_in_context && (x.other_owner || is_some x.group) then 1 else 0

-- A wrapper of a group while `n` references to it are held by other code, `given` were taken for
-- contexts and `cleared` of them dropped.
pub record IsSound (n given cleared : ℕ) (x : Group) : Type 0 where
  pub counted : x.refs + cleared ≡ n + own_reference x + given
  pub once : x.other_owner ≡ false → x.destroyed + (if is_some x.group then 1 else 0) ≡ 1
  pub kept : is_some x.callback ≡ not x.other_owner && is_some x.group
  pub untouched : x.other_owner ≡ true → x.destroyed ≡ 0
  pub few : cleared ≤ given
  pub given_once : given ≤ 1
  pub in_context : given ≡ 1 → x.is_in_context ≡ true
  pub foreign : x.other_owner ≡ true → is_some x.group ≡ true
  pub ended : x.is_in_context ≡ false → is_some x.group ≡ false → x.refs ≡ 0

-- GLib frees a group that is in a context.
pub freed-IsSound :
    (n t c : ℕ) (x : Group)
    → x.other_owner ≡ false
    → x.is_in_context ≡ true
    → is_some x.group ≡ true
    → IsSound n t c x
    → IsSound n t c (destroy_g_group x)
unfolding destroy_g_group destroy_group group_decref group_dealloc
freed-IsSound n t c x ours inside there s = record {
  counted = ground (arith, s.counted);
  once = ground (arith, s.once);
  kept = ground (arith, s.kept);
  few = s.few;
  given_once = s.given_once;
  in_context = ground (arith, s.in_context);
  untouched = ground (arith);
  foreign = ground (arith);
  ended = ground (arith);
}

pub decref-IsSound :
    (n t c : ℕ) (x : Group) → IsSound (suc n) t c x → IsSound n t c (group_decref x)
unfolding group_decref group_dealloc destroy_group
decref-IsSound n t c x s = record {
  counted = ground (arith, s.counted, s.few);
  once = ground (arith, s.once);
  kept = ground (arith, s.kept);
  few = s.few;
  given_once = s.given_once;
  in_context = ground (arith, s.in_context);
  untouched = ground (arith, s.untouched);
  foreign = ground (arith, s.foreign);
  ended = ground (arith, s.ended, s.counted, s.few);
}

pub incref-IsSound :
    (n t c : ℕ) (x : Group) → 0 < x.refs → IsSound n t c x → IsSound (suc n) t c (group_incref x)
unfolding group_incref
incref-IsSound n t c x alive s = record {
  counted = ground (arith, s.counted);
  once = s.once;
  kept = s.kept;
  few = s.few;
  given_once = s.given_once;
  in_context = s.in_context;
  untouched = s.untouched;
  foreign = s.foreign;
  ended = λ a b. ground (arith, s.ended a b);
}

-- The main group of a context is dropped.
pub clear-IsSound :
    (n t c : ℕ) (x : Group) → c < t → IsSound n t c x → IsSound n t (suc c) (group_decref x)
unfolding group_decref group_dealloc destroy_group
clear-IsSound n t c x less s = record {
  counted = ground (arith, s.counted);
  once = ground (arith, s.once);
  kept = ground (arith, s.kept);
  few = omega arith;
  given_once = s.given_once;
  in_context = ground (arith, s.in_context);
  untouched = ground (arith, s.untouched);
  foreign = ground (arith, s.foreign);
  ended = ground (arith, s.ended, s.counted);
}

-- A group is given to a context.
pub give-IsSound :
    (n c : ℕ) (x : Group)
    → x.is_in_context ≡ false
    → is_some x.group ≡ true
    → IsSound n 0 c x
    → IsSound n 1 c (record (group_incref (group_incref x)) { is_in_context = true })
unfolding group_incref
give-IsSound n c x outside there s = record {
  counted = ground (arith, s.counted);
  once = s.once;
  kept = s.kept;
  few = omega (arith, s.few);
  given_once = omega arith;
  in_context = λ e. refl;
  untouched = s.untouched;
  foreign = s.foreign;
  ended = λ e. cc;
}

pub new-IsSound :
    (p f : ℕ) → (IsSound 1 0 0 (group_init p f)) × (IsSound 1 0 0 (option_group_new p))
unfolding group_init option_group_new
new-IsSound p f = (ground arith, ground arith)

finish_entries-IsSound :
    (n t c : ℕ) (x : Group) (r : Option (List Entry) × List (Option CString))
    → IsSound n t c x
    → IsSound n t c (finish_entries x r).after
unfolding finish_entries
finish_entries-IsSound n t c x (none, strings) s = record {
  counted = s.counted;
  once = s.once;
  kept = s.kept;
  few = s.few;
  given_once = s.given_once;
  in_context = s.in_context;
  untouched = s.untouched;
  foreign = s.foreign;
  ended = s.ended;
}
finish_entries-IsSound n t c x (some es, strings) s = record {
  counted = s.counted;
  once = s.once;
  kept = s.kept;
  few = s.few;
  given_once = s.given_once;
  in_context = s.in_context;
  untouched = s.untouched;
  foreign = s.foreign;
  ended = s.ended;
}

either-IsSound :
    (n t c : ℕ) (b : Bool) (p q : Added)
    → IsSound n t c p.after
    → IsSound n t c q.after
    → IsSound n t c (if b then p else q).after
either-IsSound n t c true p q hp hq = hp
either-IsSound n t c false p q hp hq = hq

-- add_entries changes the strings alone, also those of a group that was freed.
pub strings-IsSound :
    (n t c : ℕ) (a : Option (Option (List EntryArg))) (x : Group)
    → IsSound n t c x
    → IsSound n t c (add_entries a x).after
unfolding add_entries check_if_owned finish_entries
strings-IsSound n t c none x s = either-IsSound n t c x.other_owner _ _ s s
strings-IsSound n t c (some none) x s = either-IsSound n t c x.other_owner _ _ s s
strings-IsSound n t c (some (some xs)) x s =
    either-IsSound n t c x.other_owner _ _ s
      (finish_entries-IsSound n t c x (read_entries xs x.strings) s)

-- A group that was not given to a context is in none.
pub not_given : (n t c : ℕ) (x : Group) → x.is_in_context ≡ false → IsSound n t c x → t ≡ 0
not_given n t c x out s = ground (arith, s.in_context, s.given_once)

-- A wrapper that someone holds has references, and has its group unless it is in a context.
pub held : (n t c : ℕ) (x : Group) → IsSound (suc n) t c x → 0 < x.refs
held n t c x s = omega (arith, s.counted, s.few)

pub held_group :
    (n t c : ℕ) (x : Group)
    → x.is_in_context ≡ false
    → IsSound (suc n) t c x
    → is_some x.group ≡ true
held_group n t c x out s = ground (arith, s.ended, held n t c x s)
