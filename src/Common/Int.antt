-- ===== src/Common/Int.antt =====
-- C's int, as far as the program divides it: rounding towards zero.
use Prim.Native.Nat.{ℕ, zero, suc, ◌-◌, ◌/◌, ◌%◌}
use keyd_fork.Common.Tests.{ltb, if◌then◌else◌}

-- `negsuc n` is -(n + 1).
pub data ℤ : Type 0 where
  pos : ℕ → ℤ
  negsuc : ℕ → ℤ

-- The integer of a word of 32 or 16 bits.
abbrev pub int_32 : ℕ → ℤ
int_32 x = if ltb x 2147483648 then pos x else negsuc (4294967295 - x)

abbrev pub int_16 : ℕ → ℤ
int_16 x = if ltb x 32768 then pos x else negsuc (65535 - x)

-- The word of 32 bits of an integer.
abbrev pub word_32 : ℤ → ℕ
word_32 (pos n) = n % 4294967296
word_32 (negsuc n) = 4294967295 - n % 4294967296

abbrev pub neg : ℤ → ℤ
neg (pos zero) = pos zero
neg (pos (suc n)) = negsuc n
neg (negsuc n) = pos (suc n)

-- Not for a divisor of 0.
abbrev pub div : ℤ → ℤ → ℤ
div (pos a) (pos b) = pos (a / b)
div (pos a) (negsuc b) = neg (pos (a / suc b))
div (negsuc a) (pos b) = neg (pos (suc a / b))
div (negsuc a) (negsuc b) = pos (suc a / suc b)

-- The remainder has the sign of the dividend.
abbrev pub rem : ℤ → ℤ → ℤ
rem (pos a) (pos b) = pos (a % b)
rem (pos a) (negsuc b) = pos (a % suc b)
rem (negsuc a) (pos b) = neg (pos (suc a % b))
rem (negsuc a) (negsuc b) = neg (pos (suc a % suc b))
