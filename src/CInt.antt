-- ===== src/CInt.antt =====
-- The C integers of the sources on a 64-bit platform: `gint` has 32 bits, `long` and `gint64` have
-- 64. A value is an integer ℤ; a conversion that may lose bits is written out.
use debian_pygobject.Base.{
  ℕ, suc, ◌+◌, ◌-◌, ◌%◌, ◌^◌, ◌<◌, ◌≤◌, ◌≡◌, ◌↔◌, Bool, true, false, arith, ltb, leb, ◌==◌,
  if◌then◌else◌, bit_and, bit_or, bit_xor,
}

-- `negsuc n` is -(n + 1).
pub data ℤ : Type 0 where
  pos : ℕ → ℤ
  negsuc : ℕ → ℤ

unfoldable pub zeq : ℤ → ℤ → Bool
zeq (pos a) (pos b) = a == b
zeq (pos a) (negsuc b) = false
zeq (negsuc a) (pos b) = false
zeq (negsuc a) (negsuc b) = a == b

unfoldable pub zleb : ℤ → ℤ → Bool
zleb (pos a) (pos b) = leb a b
zleb (pos a) (negsuc b) = false
zleb (negsuc a) (pos b) = true
zleb (negsuc a) (negsuc b) = leb b a

pub zeq_iff : (a b : ℤ) → (zeq a b ≡ true) ↔ (a ≡ b)
unfolding zeq
zeq_iff a b = ground arith

pub zeq_refl : (a : ℤ) → zeq a a ≡ true
unfolding zeq
zeq_refl a = ground arith

-- The order, over the non-negative parts of the two sides.
abbrev pub pos_part : ℤ → ℕ
pos_part (pos n) = n
pos_part (negsuc n) = 0

abbrev pub neg_part : ℤ → ℕ
neg_part (pos n) = 0
neg_part (negsuc n) = suc n

infix 50 ◌≤ℤ◌
abbrev pub ◌≤ℤ◌ : ℤ → ℤ → Type 0
a ≤ℤ b = pos_part a + neg_part b ≤ pos_part b + neg_part a

pub zleb_iff : (a b : ℤ) → (zleb a b ≡ true) ↔ (a ≤ℤ b)
unfolding zleb
zleb_iff (pos a) (pos b) = ground arith
zleb_iff (pos a) (negsuc b) = ground arith
zleb_iff (negsuc a) (pos b) = ground arith
zleb_iff (negsuc a) (negsuc b) = ground arith

-- The bit patterns of a value, and the value of a bit pattern.
abbrev pub word32 : ℤ → ℕ
word32 (pos n) = n % 2 ^ 32
word32 (negsuc n) = 2 ^ 32 - 1 - n % 2 ^ 32

abbrev pub word64 : ℤ → ℕ
word64 (pos n) = n % 2 ^ 64
word64 (negsuc n) = 2 ^ 64 - 1 - n % 2 ^ 64

abbrev pub int32 : ℕ → ℤ
int32 w = if ltb w (2 ^ 31) then pos w else negsuc (2 ^ 32 - 1 - w)

abbrev pub int64 : ℕ → ℤ
int64 w = if ltb w (2 ^ 63) then pos w else negsuc (2 ^ 64 - 1 - w)

-- Conversion to `gint` and to `long`.
unfoldable pub to_int : ℤ → ℤ
to_int z = int32 (word32 z)

unfoldable pub to_long : ℤ → ℤ
to_long z = int64 (word64 z)

-- `&`, `|` and `^` on `long`.
unfoldable pub and_long : ℤ → ℤ → ℤ
and_long a b = int64 (bit_and (word64 a) (word64 b))

unfoldable pub or_long : ℤ → ℤ → ℤ
or_long a b = int64 (bit_or (word64 a) (word64 b))

unfoldable pub xor_long : ℤ → ℤ → ℤ
xor_long a b = int64 (bit_xor (word64 a) (word64 b))

abbrev pub InInt : ℤ → Type 0
InInt (pos n) = n < 2 ^ 31
InInt (negsuc n) = n < 2 ^ 31

abbrev pub InLong : ℤ → Type 0
InLong (pos n) = n < 2 ^ 63
InLong (negsuc n) = n < 2 ^ 63

pub to_int-InInt : (z : ℤ) → InInt z → to_int z ≡ z
unfolding to_int
to_int-InInt (pos n) h = ground arith
to_int-InInt (negsuc n) h = ground arith

pub to_long-InLong : (z : ℤ) → InLong z → to_long z ≡ z
unfolding to_long
to_long-InLong (pos n) h = ground arith
to_long-InLong (negsuc n) h = ground arith
