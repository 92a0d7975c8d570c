-- ===== src/Prelude/Float64.antt =====
-- Go's float64 on values that are whole multiples of one small unit, as a number of units: a result is
-- rounded to 53 significant bits, a tie to the even number. Zero has no sign here; infinities and
-- numbers too small for 53 bits do not come up at the sizes that an `int64` allows.
use Prim.Native.Nat.{ℕ, zero, suc, ◌+◌, ◌*◌, ◌/◌, ◌%◌, ◌^◌}
use mathlib.Core.Bool.{Bool, ◌&&◌, ◌||◌}
use hive_mind_fusion.Prelude.Tests.{ltb, ◌==◌, if◌then◌else◌}
use hive_mind_fusion.Prelude.Ints.{ℤ, pos, negsuc, pos_part, neg_part, diff_ℤ}

-- The last place of a number at 53 significant bits; it has at most 53 and the fuel.
unfoldable pub last_place : ℕ → ℕ → ℕ
last_place zero n = 1
last_place (suc fuel) n =
    let rest = last_place fuel (n / 2) in if ltb n (2 ^ 53) then 1 else 2 * rest

-- Whether half a last place is passed, or met with an odd last bit.
abbrev pub rounds_up : ℕ → ℕ → ℕ → Bool
rounds_up place q r = ltb place (2 * r) || (place == 2 * r && q % 2 == 1)

abbrev pub round_at : ℕ → ℕ → ℕ
round_at n place = let q = n / place in (if rounds_up place q (n % place) then q + 1 else q)

abbrev pub ratio_at : ℕ → ℕ → ℕ → ℕ
ratio_at place n d = round_at n (d * place) * place

-- A fraction in units, rounded; it is either whole or at least 2^52.
unfoldable pub round_with : ℕ → ℕ → ℕ → ℕ
unfolding last_place
round_with fuel n d = ratio_at (last_place fuel (n / d)) n d

-- The fuel is for values below 2^245.
unfoldable pub round_ratio : ℕ → ℕ → ℕ
unfolding round_with
round_ratio n d = round_with 192 n d

abbrev pub negated : ℕ → ℤ
negated n = diff_ℤ 0 n

-- An integer over a positive number.
unfoldable pub float_ratio : ℤ → ℕ → ℤ
unfolding round_ratio
float_ratio (pos n) d = pos (round_ratio n d)
float_ratio (negsuc n) d = negated (round_ratio (suc n) d)

unfoldable pub float_add : ℤ → ℤ → ℤ
unfolding float_ratio
float_add a b = float_ratio (diff_ℤ (pos_part a + pos_part b) (neg_part a + neg_part b)) 1
