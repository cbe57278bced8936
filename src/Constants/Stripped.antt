-- ===== src/Constants/Stripped.antt =====
-- Where pyg_constant_strip_prefix begins the stripped name, and when it reads outside the string.
use debian_pygobject.Base.{
  ℕ, zero, suc, ◌+◌, ◌≤◌, ◌<◌, ◌≡◌, Bool, true, false, ◌&&◌, ◌||◌, some, [], ◌∷◌, ◌≢◌, ◌==◌, length,
  CString,
}
use debian_pygobject.Constants.Prefix.{can_start, char_at, mismatch}

-- No byte at or before the place can start an identifier.
abbrev pub NoStart : CString → ℕ → Type 0
NoStart name i = (j c : ℕ) → j ≤ i → char_at name j ≡ some c → can_start c ≡ false

-- Nor can a byte behind the place `j`, up to `i`.
abbrev pub NoneAfter : CString → ℕ → ℕ → Type 0
NoneAfter name j i = (m c : ℕ) → j < m → m ≤ i → char_at name m ≡ some c → can_start c ≡ false

-- The name has the prefix, up to underscores in its place.
abbrev pub agrees : CString → CString → Bool
agrees name [] = true
agrees [] (p ∷ prefix) = false
agrees (c ∷ name) (p ∷ prefix) = (c == p || c == b'_') && agrees name prefix

-- The prefix up to a place.
abbrev pub until : ℕ → CString → CString
until zero prefix = []
until (suc i) [] = []
until (suc i) (p ∷ prefix) = p ∷ until i prefix

-- Up to the place the name has the prefix, and there the byte of the prefix is another.
abbrev pub Departs : ℕ → ℕ → CString → CString → Type 0
Departs i c name prefix =
    (agrees name (until i prefix) ≡ true) × ((p : ℕ) → char_at prefix i ≡ some p → p ≢ 0 → c ≢ p)

abbrev Leaves : ℕ → CString → CString → Type 0
Leaves k name prefix =
    (i c : ℕ) × (mismatch k name prefix ≡ some (k + i))
    × (i < length prefix)
    × (i ≤ length name)
    × (char_at name i ≡ some c)
    × (c ≢ b'_')
    × Departs i c name prefix
