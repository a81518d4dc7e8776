-- ===== src/Prelude/Int.antt =====
-- Signed integers over the native numbers, with the tests and the arithmetic that the code uses.
use Prim.Native.Nat.{ℕ, suc, ◌+◌, ◌-◌, ◌/◌, ◌%◌, ◌^◌, ◌<◌}
use mathlib.Core.Path.{◌≡◌}
use mathlib.Core.Bool.{Bool, true, false}
use native.Mathlib.Omega.{arith}
use usd_pointcloud_plugins.Prelude.Tests.{ltb, leb, ◌==◌, if◌then◌else◌}

-- `negsuc n` is -(n + 1).
pub data ℤ : Type 0 where
  pos : ℕ → ℤ
  negsuc : ℕ → ℤ

abbrev pub pos_part : ℤ → ℕ
pos_part (pos n) = n
pos_part (negsuc n) = 0

abbrev pub neg_part : ℤ → ℕ
neg_part (pos n) = 0
neg_part (negsuc n) = suc n

abbrev pub sub_ℕ : ℕ → ℕ → ℤ
sub_ℕ a b = if leb b a then pos (a - b) else negsuc (b - a - 1)

infixl 65 ◌+ℤ◌ ◌-ℤ◌
unfoldable pub ◌+ℤ◌ : ℤ → ℤ → ℤ
a +ℤ b = sub_ℕ (pos_part a + pos_part b) (neg_part a + neg_part b)

unfoldable pub ◌-ℤ◌ : ℤ → ℤ → ℤ
a -ℤ b = sub_ℕ (pos_part a + neg_part b) (neg_part a + pos_part b)

abbrev pub eqb_ℤ : ℤ → ℤ → Bool
eqb_ℤ (pos a) (pos b) = a == b
eqb_ℤ (negsuc a) (negsuc b) = a == b
eqb_ℤ (pos a) (negsuc b) = false
eqb_ℤ (negsuc a) (pos b) = false

abbrev pub ltb_ℤ : ℤ → ℤ → Bool
ltb_ℤ a b = ltb (pos_part a + neg_part b) (pos_part b + neg_part a)

abbrev pub leb_ℤ : ℤ → ℤ → Bool
leb_ℤ a b = leb (pos_part a + neg_part b) (pos_part b + neg_part a)

abbrev pub is_nonneg : ℤ → Bool
is_nonneg (pos n) = true
is_nonneg (negsuc n) = false

-- The quotient by two of C++, which rounds towards zero.
abbrev pub half_ℤ : ℤ → ℤ
half_ℤ (pos n) = pos (n / 2)
half_ℤ (negsuc n) = sub_ℕ 0 (suc n / 2)

-- The value of a two's complement pattern of `w` bits, for the pattern below 2 ^ w.
abbrev pub signed : ℕ → ℕ → ℤ
signed w p = if ltb p (2 ^ (w - 1)) then pos p else negsuc (2 ^ w - p - 1)

-- The pattern of `w` bits of an integer.
abbrev pub unsigned : ℕ → ℤ → ℕ
unsigned w (pos n) = n % 2 ^ w
unsigned w (negsuc n) = 2 ^ w - 1 - n % 2 ^ w

pub eqb_ℤ→eq : (a b : ℤ) → eqb_ℤ a b ≡ true → a ≡ b
eqb_ℤ→eq (pos a) (pos b) h = ground arith
eqb_ℤ→eq (negsuc a) (negsuc b) h = ground arith
eqb_ℤ→eq (pos a) (negsuc b) h = cc
eqb_ℤ→eq (negsuc a) (pos b) h = cc

pub eqb_ℤ_refl : (a : ℤ) → eqb_ℤ a a ≡ true
eqb_ℤ_refl (pos a) = ground arith
eqb_ℤ_refl (negsuc a) = ground arith

-- The integers of a two's complement word of 32 or 64 bits.
abbrev pub IsI32 : ℤ → Type 0
IsI32 (pos n) = n < 0x8000_0000
IsI32 (negsuc n) = n < 0x8000_0000

abbrev pub IsI64 : ℤ → Type 0
IsI64 (pos n) = n < 0x8000_0000_0000_0000
IsI64 (negsuc n) = n < 0x8000_0000_0000_0000

pub signed-unsigned_32 : (z : ℤ) → IsI32 z → signed 32 (unsigned 32 z) ≡ z
signed-unsigned_32 (pos n) h = ground arith
signed-unsigned_32 (negsuc n) h = ground arith

pub signed-unsigned_64 : (z : ℤ) → IsI64 z → signed 64 (unsigned 64 z) ≡ z
signed-unsigned_64 (pos n) h = ground arith
signed-unsigned_64 (negsuc n) h = ground arith
