-- ===== src/Constants/Format.antt =====
-- Printing numbers, as `%ld` of sprintf does.
use debian_pygobject.Base.{ℕ, zero, suc, ◌+◌, ◌/◌, ◌%◌, [], ◌∷◌, ◌++◌, ltb, if◌then◌else◌, CString}
use debian_pygobject.CInt.{ℤ, pos, negsuc}

digits : ℕ → ℕ → CString
digits zero n = []
digits (suc f) n =
    let front = digits f (n / 10) in if ltb n 10 then (n + 48) ∷ [] else front ++ (n % 10 + 48) ∷ []

-- A number below 2 ^ 64 has at most 20 digits.
unfoldable pub print_long : ℤ → CString
unfolding digits
print_long (pos n) = digits 20 n
print_long (negsuc n) = b'-' ∷ digits 20 (n + 1)
