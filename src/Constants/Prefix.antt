-- ===== src/Constants/Prefix.antt =====
-- pyg_constant_strip_prefix of gobject/gobjectmodule.c: the name of a constant in its module.
-- `none` is a read outside the string: the second loop counts down a `guint` while `i >= 0`.
use debian_pygobject.Base.{
  ℕ, zero, suc, Bool, not, ◌&&◌, ◌||◌, Option, none, some, [], ◌∷◌, ◌==◌, leb, if◌then◌else◌,
  length, drop, CString,
}

-- g_ascii_isalpha(c) || c == '_'
unfoldable pub can_start : ℕ → Bool
can_start c = (leb b'a' c && leb c b'z') || (leb b'A' c && leb c b'Z') || (c == b'_')

-- A byte of a C string: the byte behind the last is the terminator, and there is none after it.
unfoldable pub char_at : CString → ℕ → Option ℕ
char_at [] zero = some 0
char_at [] (suc i) = none
char_at (c ∷ s) zero = some c
char_at (c ∷ s) (suc i) = char_at s i

-- The first loop: the place where the name leaves the prefix, counted from `i`.
unfoldable pub mismatch : ℕ → CString → CString → Option ℕ
mismatch i name [] = none
mismatch i [] (p ∷ prefix) = some i
mismatch i (c ∷ name) (p ∷ prefix) =
    let rest = mismatch (suc i) name prefix in
    if not (c == p) && not (c == b'_') then some i else rest

-- The second loop, down from `i`. At 0 the counter wraps to 2 ^ 32 - 1 and the next read is outside.
unfoldable pub back_up : CString → ℕ → Option ℕ
back_up name zero = elim (char_at name zero) [
  | none ↦ none
  | some c ↦ if can_start c then some zero else none
]
back_up name (suc i) =
    let rest = back_up name i in
    elim (char_at name (suc i)) [
      | none ↦ none
      | some c ↦ if can_start c then some (suc i) else rest
    ]

-- The place in the name at which the stripped name begins.
unfoldable pub strip_at : CString → CString → Option ℕ
strip_at name prefix = elim (mismatch 0 name prefix) [
  | some i ↦ some i
  | none ↦ back_up name (length prefix)
]

unfoldable pub strip_prefix : CString → CString → Option CString
unfolding strip_at
strip_prefix name prefix = elim (strip_at name prefix) [ none ↦ none | some i ↦ some (drop i name) ]
