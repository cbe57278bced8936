-- ===== src/Options/Entries.antt =====
-- pyg_option_group_add_entries and pyg_option_group_set_translation_domain of glib/pygoptiongroup.c.
use debian_pygobject.Base.{
  ℕ, ◌≡◌, refl, Bool, true, false, Option, none, some, List, [], ◌∷◌, ◌++◌, map, if◌then◌else◌,
  CString,
}
use debian_pygobject.CInt.{ℤ}
use debian_pygobject.Options.{
  Group, OptionError, bad_argument, not_owned, already_freed, expected_list, check_if_owned,
}

-- GOptionEntry, as far as it differs from entry to entry: `arg` is G_OPTION_ARG_CALLBACK and
-- `arg_data` is arg_func.
pub record Entry : Type 0 where
  pub long_name : CString
  pub short_name : ℤ
  pub flags : ℤ
  pub description : CString
  pub arg_description : Option CString

-- An item of the list: not a tuple, a tuple that PyArg_ParseTuple refuses, or what it makes of one.
pub data EntryArg : Type 0 where
  not_tuple unparsable : EntryArg
  entry : Entry → EntryArg

-- The copies of the strings go to the head of the list.
unfoldable pub add_strings : Entry → List (Option CString) → List (Option CString)
add_strings e strings = e.arg_description ∷ some e.description ∷ some e.long_name ∷ strings

unfoldable pub cons_entry :
    Entry
    → Option (List Entry) × List (Option CString)
    → Option (List Entry) × List (Option CString)
cons_entry e (none, strings) = (none, strings)
cons_entry e (some es, strings) = (some (e ∷ es), strings)

-- The loop over the items: the entries, unless one is refused, and the strings.
unfoldable pub read_entries :
    List EntryArg → List (Option CString) → Option (List Entry) × List (Option CString)
unfolding add_strings cons_entry
read_entries [] strings = (some [], strings)
read_entries (not_tuple ∷ xs) strings = (none, strings)
read_entries (unparsable ∷ xs) strings = (none, strings)
read_entries (entry e ∷ xs) strings = cons_entry e (read_entries xs (add_strings e strings))

-- The exception, the wrapper, and what g_option_group_add_entries was given, if it was called: the
-- group, which is a null pointer once it was freed, and the entries.
pub record Added : Type 0 where
  pub error : Option OptionError
  pub after : Group
  pub entries : Option (Option ℕ × List Entry)

abbrev pub refused : OptionError → Group → Added
refused f x = record { error = some f; after = x; entries = none }

unfoldable pub finish_entries : Group → Option (List Entry) × List (Option CString) → Added
finish_entries x (none, strings) = refused expected_list (record x { strings = strings })
finish_entries x (some es, strings) = record {
  error = none;
  after = record x { strings = strings };
  entries = some (x.group, es);
}

-- The argument is `none` if the arguments do not parse, and `some none` if it is no list.
unfoldable pub add_entries : Option (Option (List EntryArg)) → Group → Added
unfolding check_if_owned read_entries finish_entries
add_entries none x = if check_if_owned x then refused not_owned x else refused bad_argument x
add_entries (some none) x =
    if check_if_owned x then refused not_owned x else refused expected_list x
add_entries (some (some xs)) x =
    if check_if_owned x then refused not_owned x else finish_entries x (read_entries xs x.strings)

-- The domain that GLib is given is `none` for None; the argument is `none` if it does not parse.
unfoldable pub set_translation_domain :
    Option (Option CString) → Group → Option OptionError × Option (Option CString)
unfolding check_if_owned
set_translation_domain domain x =
    if check_if_owned x then (some not_owned, none) else elim x.group [
      | none ↦ (some already_freed, none)
      | some g ↦ elim domain [ none ↦ (some bad_argument, none) | some d ↦ (none, some d) ]
    ]

-- The strings of entries, one after the other, in front of others.
abbrev pub strings_of : List Entry → List (Option CString) → List (Option CString)
strings_of [] strings = strings
strings_of (e ∷ es) strings =
    strings_of es (e.arg_description ∷ some e.description ∷ some e.long_name ∷ strings)

read_entries-good :
    (es : List Entry) (strings : List (Option CString))
    → read_entries (map entry es) strings ≡ (some es, strings_of es strings)
unfolding read_entries add_strings cons_entry
read_entries-good [] strings = refl
read_entries-good (e ∷ es) strings =
    rw (read_entries-good es (e.arg_description ∷ some e.description ∷ some e.long_name ∷ strings))
      refl

-- An item that is no entry.
abbrev pub is_bad : EntryArg → Bool
is_bad (entry e) = false
is_bad x = true

read_entries-bad :
    (es : List Entry) (b : EntryArg) (xs : List EntryArg) (strings : List (Option CString))
    → is_bad b ≡ true
    → read_entries (map entry es ++ b ∷ xs) strings ≡ (none, strings_of es strings)
unfolding read_entries add_strings cons_entry
read_entries-bad [] not_tuple xs strings h = refl
read_entries-bad [] unparsable xs strings h = refl
read_entries-bad [] (entry e) xs strings h = cc
read_entries-bad (e ∷ es) b xs strings h =
    rw
      (read_entries-bad es b xs
        (e.arg_description ∷ some e.description ∷ some e.long_name ∷ strings) h)
      refl

-- For a group that was made in Python, a list of entries is given to GLib as it is and in order, and a
-- list with an item that is none is refused and nothing is given; in both cases the strings of the
-- entries, of those up to the bad item, are kept with the group, and nothing else changes.
pub add_entries_lem :
    (es : List Entry) (x : Group)
    → x.other_owner ≡ false
    → (add_entries (some (some (map entry es))) x ≡ record {
      error = none;
      after = record x { strings = strings_of es x.strings };
      entries = some (x.group, es);
    })
      × ((b : EntryArg) (xs : List EntryArg)
          → is_bad b ≡ true
          → add_entries (some (some (map entry es ++ b ∷ xs))) x
            ≡ refused expected_list (record x { strings = strings_of es x.strings }))
unfolding add_entries check_if_owned finish_entries
add_entries_lem es x ours = (
  rw (ours, read_entries-good es x.strings) refl,
  λ b xs h. rw (ours, read_entries-bad es b xs x.strings h) refl,
)
