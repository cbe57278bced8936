-- ===== src/IoChannel/Written.antt =====
-- What `readlines` returns and `writelines` sends.
use debian_pygobject.Base.{
  ℕ, zero, suc, ◌+◌, ◌≤◌, ◌≡◌, refl, ◌∙◌, ap, Bool, true, false, none, some, List, [], ◌∷◌, ◌++◌,
  map, length, CString, arith,
}
use debian_pygobject.IoChannel.{normal, eof, is_normal}
use debian_pygobject.IoChannel.Lines.{
  LineResult, Str, returned, null_dereference, read_lines_loop, read_lines, Hook, decref_last,
  unblock_threads, WriteResult, text, written, null_item, write_lines,
}
use mathlib.Core.List.{append_assoc}

abbrev pub listed : CString → Str
listed line = record { bytes = line; refs = 2 }

module _ {ℓ} {S : Type ℓ} (read_line : S → LineResult S) where
  -- The channel gives these lines, and then its end.
  pub data Gives : S → List CString → S → Type ℓ where
    at_end :
        (s : S)
        → (read_line s).gerror ≡ none
        → (read_line s).status ≡ eof
        → (read_line s).text ≡ []
        → Gives s [] ((read_line s).after)
    line :
        (s : S) {lines : List CString} {t : S}
        → (read_line s).gerror ≡ none
        → (read_line s).status ≡ normal
        → Gives ((read_line s).after) lines t
        → Gives s ((read_line s).text ∷ lines) t

  loop-Gives :
      (k : ℕ) (read : List Str) {s t : S} {lines : List CString}
      → Gives s lines t
      → length lines + 2 ≤ k
      → read_lines_loop read_line k normal read s
        ≡ returned (read ++ map listed (lines ++ ([] ∷ []))) t
  unfolding read_lines_loop is_normal
  loop-Gives zero read g fuel = ground arith
  loop-Gives (suc zero) read (at_end s good ends empty) fuel = ground arith
  loop-Gives (suc (suc k)) read (at_end s good ends empty) fuel =
      rw (good, read_lines_loop, ends, empty) refl
  loop-Gives (suc k) read (line s {lines} {t} good more rest) fuel =
      rw (good, read_lines_loop, more)
        (loop-Gives k (read ++ (listed ((read_line s).text) ∷ [])) rest (ground arith)
          ∙ ap (λ xs. returned xs t)
              (append_assoc read (listed ((read_line s).text) ∷ [])
                (map listed (lines ++ ([] ∷ [])))))

  -- A channel that gives some lines and then its end: with one unit of fuel for each line and two
  -- more, `readlines` returns the lines in order and one empty string after them, and every string
  -- has two references, so that one is left when the list is released.
  pub read_lines-Gives :
      {s t : S} {lines : List CString} (fuel : ℕ)
      → Gives s lines t
      → length lines + 2 ≤ fuel
      → read_lines read_line fuel s ≡ returned (map listed (lines ++ ([] ∷ []))) t
  unfolding read_lines
  read_lines-Gives fuel g enough = loop-Gives fuel [] g enough

  -- If the first line cannot be read, `readlines` drops a reference through a null pointer instead
  -- of raising the error.
  pub read_lines_first_error :
      (s : S) (e fuel : ℕ)
      → (read_line s).gerror ≡ some e
      → read_lines read_line (suc fuel) s ≡ null_dereference
  unfolding read_lines read_lines_loop is_normal decref_last
  read_lines_first_error s e fuel bad = rw bad refl

module _ {ℓ} {S : Type ℓ} (write : S → CString → WriteResult S) where
  -- The channel after the strings, and the hooks called.
  abbrev pub sent : List CString → S → S
  sent [] s = s
  sent (b ∷ bs) s = sent bs ((write s b).after)

  abbrev pub unblocked : List CString → List Hook
  unblocked [] = []
  unblocked (b ∷ bs) = unblock_threads ∷ (unblock_threads ∷ unblocked bs)

  -- `writelines` of strings that the channel takes writes them in order, but calls the hook that
  -- unblocks threads twice for each and the one that blocks them never; at the end it returns None if
  -- the iterator leaves StopIteration set, and otherwise reads the type of a null pointer.
  pub write_lines_lem :
      (stop_iteration : Bool) (bufs : List CString) (s : S)
      → ((t : S) (b : CString) → (write t b).gerror ≡ none)
      → write_lines write stop_iteration (map text bufs) s ≡ (
        elim stop_iteration [ true ↦ written | false ↦ null_item ],
        (unblocked bufs, sent bufs s),
      )
  unfolding write_lines
  write_lines_lem stop_iteration [] s good = refl
  write_lines_lem stop_iteration (b ∷ bs) s good =
      rw (good s b, write_lines, write_lines_lem stop_iteration bs ((write s b).after) good) refl
