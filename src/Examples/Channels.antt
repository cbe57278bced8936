-- ===== src/Examples/Channels.antt =====
-- The theorems on GIOChannel at a channel whose state is the list of what is left in it.
use debian_pygobject.Base.{
  List, ◌≡◌, refl, true, false, none, some, [], zero, suc, ◌∷◌, ◌++◌, map, length, ℕ, CString,
  codes, arith,
}
use debian_pygobject.IoChannel.{ReadResult, normal, eof}
use debian_pygobject.IoChannel.Lines.{
  LineResult, WriteResult, text, read_lines, returned, write_lines, written, null_item,
}
use debian_pygobject.IoChannel.Written.{
  listed, Gives, at_end, line, read_lines-Gives, sent, unblocked, write_lines_lem,
}

-- One byte at a time.
abbrev read_byte : CString → ℕ → ReadResult CString
read_byte [] n = record { status = eof; bytes = []; gerror = none; after = [] }
read_byte (c ∷ cs) zero = record { status = normal; bytes = []; gerror = some 1; after = c ∷ cs }
read_byte (c ∷ cs) (suc n) = record { status = normal; bytes = c ∷ []; gerror = none; after = cs }

abbrev unread : CString → CString
unread s = s

abbrev next_line : List CString → LineResult (List CString)
next_line [] = record { status = eof; text = []; gerror = none; after = [] }
next_line (l ∷ ls) = record { status = normal; text = l; gerror = none; after = ls }

abbrev two_lines : List CString
two_lines = codes "one" ∷ (codes "two" ∷ [])

two_lines-Gives : Gives next_line two_lines two_lines []
two_lines-Gives =
    line two_lines refl refl (line (codes "two" ∷ []) refl refl (at_end [] refl refl refl))

read_lines-Gives_example :
    read_lines next_line 4 two_lines ≡ returned (map listed (two_lines ++ ([] ∷ []))) []
read_lines-Gives_example = read_lines-Gives next_line 4 two_lines-Gives (omega arith)

abbrev broken : ℕ → LineResult ℕ
broken s = record { status = normal; text = []; gerror = some 3; after = s }

abbrev append_bytes : CString → CString → WriteResult CString
append_bytes s b = record { count = length b; gerror = none; after = s ++ b }

write_lines_lem_example : write_lines append_bytes false (map text two_lines) [] ≡ (
  elim false [ true ↦ written | false ↦ null_item ],
  ((unblocked append_bytes) two_lines, (sent append_bytes) two_lines []),
)
write_lines_lem_example = write_lines_lem append_bytes false two_lines [] (λ t b. refl)
