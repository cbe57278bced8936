-- ===== src/IoChannel/Lines.antt =====
-- `readline`, `readlines`, `write`, `writelines` and `flush` of GIOChannel.
use debian_pygobject.Base.{
  ℕ, zero, suc, ◌-◌, ◌⊎◌, inl, inr, Bool, true, false, Option, none, some, List, [], ◌∷◌, ◌++◌,
  CString,
}
use debian_pygobject.IoChannel.{Status, normal, is_normal}

-- What g_io_channel_read_line gives; without a line the string is NULL and the length 0, so the
-- bytes are [].
pub record LineResult {ℓ} (S : Type ℓ) : Type ℓ where
  pub status : Status
  pub text : CString
  pub gerror : Option ℕ
  pub after : S

-- A Python string with its count of references.
pub record Str : Type 0 where
  pub bytes : CString
  pub refs : ℕ

pub data LinesOutcome {ℓ} (S : Type ℓ) : Type ℓ where
  returned : List Str → S → LinesOutcome S
  -- glib.GError; what is left of the list of lines, which is not released
  raised : ℕ → List Str → S → LinesOutcome S
  -- Py_DECREF of a null pointer
  null_dereference : LinesOutcome S
  out_of_fuel : LinesOutcome S

-- Py_DECREF of `line`, the last string of the list, if a line was read.
unfoldable pub decref_last : List Str → Option (List Str)
decref_last [] = none
decref_last (x ∷ []) = some (record x { refs = x.refs - 1 } ∷ [])
decref_last (x ∷ (y ∷ ys)) =
    let rest = decref_last (y ∷ ys) in elim rest [ none ↦ none | some zs ↦ some (x ∷ zs) ]

module _ {ℓ} {S : Type ℓ} (read_line : S → LineResult S) where
  -- py_io_channel_read_line
  unfoldable pub io_read_line : S → (ℕ ⊎ CString) × S
  io_read_line s =
      let r = read_line s in
      elim (r.gerror) [ some e ↦ (inl e, r.after) | none ↦ (inr (r.text), r.after) ]

  -- The loop of py_io_channel_read_lines. A new string has one reference, and PyList_Append takes
  -- another.
  unfoldable pub read_lines_loop : ℕ → Status → List Str → S → LinesOutcome S
  unfolding is_normal decref_last
  read_lines_loop zero status lines s = out_of_fuel
  read_lines_loop (suc k) status lines s = elim (is_normal status) [
    | false ↦ returned lines s
    | true ↦
        let r = read_line s in
        elim (r.gerror) [
          | some e ↦ elim (decref_last lines) [
            | none ↦ null_dereference
            | some left ↦ raised e left (r.after)
          ]
          | none ↦
              read_lines_loop k (r.status) (lines ++ (record { bytes = r.text; refs = 2 } ∷ []))
                (r.after)
        ]
  ]

  unfoldable pub read_lines : ℕ → S → LinesOutcome S
  unfolding read_lines_loop
  read_lines fuel s = read_lines_loop fuel normal [] s

-- The hooks that are called around a write.
pub data Hook : Type 0 where
  unblock_threads block_threads : Hook

pub record WriteResult {ℓ} (S : Type ℓ) : Type ℓ where
  pub count : ℕ
  pub gerror : Option ℕ
  pub after : S

-- What PyIter_Next gives: an item, or NULL with or without StopIteration set.
pub data Item : Type 0 where
  text : CString → Item
  not_text : Item

pub data WriteOutcome : Type 0 where
  written : WriteOutcome
  raised_gerror : ℕ → WriteOutcome
  type_error : WriteOutcome
  -- the type of the null pointer that PyIter_Next gives
  null_item : WriteOutcome

module _ {ℓ} {S : Type ℓ} (write : S → CString → WriteResult S) where
  -- py_io_channel_write_chars: the bytes written or the error, the hooks called, and the channel.
  unfoldable pub write_chars : CString → S → (ℕ ⊎ ℕ) × (List Hook × S)
  write_chars buf s =
      let r = write s buf in
      let hooks = unblock_threads ∷ (block_threads ∷ []) in
      elim (r.gerror) [
        | some e ↦ (inl e, (hooks, r.after))
        | none ↦ (inr (r.count), (hooks, r.after))
      ]

  -- py_io_channel_write_lines, with the items of the iterator and if StopIteration is set after
  -- the last one.
  unfoldable pub write_lines : Bool → List Item → S → WriteOutcome × (List Hook × S)
  write_lines stop_iteration [] s =
      (elim stop_iteration [ true ↦ written | false ↦ null_item ], ([], s))
  write_lines stop_iteration (not_text ∷ items) s = (type_error, ([], s))
  write_lines stop_iteration (text buf ∷ items) s =
      let r = write s buf in
      let (out, (hooks, left)) = write_lines stop_iteration items (r.after) in
      let called = unblock_threads ∷ (unblock_threads ∷ []) in
      elim (r.gerror) [
        | some e ↦ (raised_gerror e, (called, r.after))
        | none ↦ (out, (called ++ hooks, left))
      ]
