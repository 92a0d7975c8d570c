-- ===== src/Prelude/Ints.antt =====
-- Signed integers over the native numbers, for Go's `int` where a negative value changes the
-- behaviour. `negsuc n` is -(n + 1).
use Prim.Native.Nat.{ℕ, zero, suc, ◌+◌, ◌-◌, ◌*◌, ◌%◌, ◌≤◌, ◌^◌}
use mathlib.Core.Bool.{Bool, false}
use hive_mind_fusion.Prelude.Tests.{ltb, leb, ◌==◌, if◌then◌else◌}

pub data ℤ : Type 0 where
  pos : ℕ → ℤ
  negsuc : ℕ → ℤ

abbrev pub pos_part : ℤ → ℕ
pos_part (pos n) = n
pos_part (negsuc n) = 0

abbrev pub neg_part : ℤ → ℕ
neg_part (pos n) = 0
neg_part (negsuc n) = suc n

abbrev pub ltb_ℤ : ℤ → ℤ → Bool
ltb_ℤ a b = ltb (pos_part a + neg_part b) (pos_part b + neg_part a)

abbrev pub leb_ℤ : ℤ → ℤ → Bool
leb_ℤ a b = leb (pos_part a + neg_part b) (pos_part b + neg_part a)

infix 50 ◌≤ℤ◌
abbrev pub ◌≤ℤ◌ : ℤ → ℤ → Type 0
a ≤ℤ b = pos_part a + neg_part b ≤ pos_part b + neg_part a

abbrev pub is_zero : ℤ → Bool
is_zero (pos n) = n == 0
is_zero (negsuc n) = false

-- The largest `int` of a 64-bit platform.
abbrev pub max_int : ℕ
max_int = 2 ^ 63 - 1

-- `x++` on an `int`, which wraps at the largest value.
abbrev pub inc_int : ℤ → ℤ
inc_int (pos n) = if n == max_int then negsuc max_int else pos (n + 1)
inc_int (negsuc zero) = pos 0
inc_int (negsuc (suc n)) = negsuc n

-- The difference of two numbers.
abbrev pub diff_ℤ : ℕ → ℕ → ℤ
diff_ℤ a b = if leb b a then pos (a - b) else negsuc (b - a - 1)

-- A number times an integer; the number is positive.
abbrev pub times_ℤ : ℕ → ℤ → ℤ
times_ℤ k (pos n) = pos (k * n)
times_ℤ k (negsuc n) = negsuc (k * (n + 1) - 1)

-- The 64-bit `int` with these low bits.
abbrev pub int_of_bits : ℕ → ℤ
int_of_bits r = if ltb r (2 ^ 63) then pos r else negsuc (2 ^ 64 - 1 - r)

-- The 64-bit `int` that an exact result wraps to.
abbrev pub wrap_int : ℤ → ℤ
wrap_int (pos n) = int_of_bits (n % 2 ^ 64)
wrap_int (negsuc n) = int_of_bits (2 ^ 64 - 1 - n % 2 ^ 64)
