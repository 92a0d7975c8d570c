-- ===== src/Prelude/Rounding.antt =====
-- When the rounding of a float64 changes nothing.
use Prim.Native.Nat.{ℕ, zero, suc, ◌*◌, ◌/◌, ◌<◌, ◌^◌}
use native.Mathlib.Nat.{mul_comm, mul-pos, mul_assoc, mul-div_cancel_left, mul-mod_right}
use native.Mathlib.Omega.{arith}
use mathlib.Core.Path.{◌≡◌, refl, sym, ap, ◌∙◌}
use mathlib.Core.Bool.{true}
use mathlib.Core.Logic.{inl, inr}
use hive_mind_fusion.Prelude.Tests.{ltb, Bool-cases}
use hive_mind_fusion.Prelude.Float64.{last_place, round_at, ratio_at, round_with, round_ratio}

abbrev pub twos : ℕ → ℕ
twos zero = 1
twos (suc k) = 2 * twos k

last_place-pos : (fuel n : ℕ) → 0 < last_place fuel n
unfolding last_place
last_place-pos zero n = omega arith
last_place-pos (suc fuel) n =
    let rest = last_place-pos fuel (n / 2) in
    elim (Bool-cases (ltb n (2 ^ 53))) [
      | inl few ↦ rw few (omega arith)
      | inr many ↦ rw many (omega (arith, rest))
    ]

half-twos : (k m : ℕ) → twos (suc k) * m / 2 ≡ twos k * m
half-twos k m = rw (mul_assoc 2 (twos k) m) (mul-div_cancel_left (twos k * m) (omega arith))

last_place-twos :
    (fuel k m : ℕ) → m < 2 ^ 53 → (j : ℕ) × (twos k * m ≡ last_place fuel (twos k * m) * j)
unfolding last_place
last_place-twos zero k m h = (twos k * m, omega arith)
last_place-twos (suc fuel) zero m h =
    let few : ltb (1 * m) (2 ^ 53) ≡ true = ground (arith, h) in (m, rw few refl)
last_place-twos (suc fuel) (suc k) m h =
    let (j, e) = last_place-twos fuel k m h in
    elim (Bool-cases (ltb (twos (suc k) * m) (2 ^ 53))) [
      | inl few ↦ rw few (twos (suc k) * m, omega arith)
      | inr many ↦
          rw (many, half-twos k m)
            (
              j,
              mul_assoc 2 (twos k) m
                  ∙ (ap (λ x. 2 * x) e ∙ sym (mul_assoc 2 (last_place fuel (twos k * m)) j)),
            )
    ]

round_at-exact : (place j : ℕ) → 0 < place → round_at (place * j) place ≡ j
round_at-exact place j h = rw (mul-div_cancel_left j h, mul-mod_right place j) (ground (arith, h))

ratio_at-exact :
    (place n d j : ℕ) → 0 < place → 0 < d → n ≡ place * j → ratio_at place (d * n) d ≡ n
ratio_at-exact place n d j p q e =
    let whole : d * n ≡ d * place * j = ap (λ x. d * x) e ∙ sym (mul_assoc d place j) in
    let rounded = round_at-exact (d * place) j (mul-pos q p) in
    ap (λ x. round_at x (d * place) * place) whole
    ∙ (ap (λ x. x * place) rounded ∙ (mul_comm j place ∙ sym e))

round_with-exact :
    (fuel k m d : ℕ) → m < 2 ^ 53 → 0 < d → round_with fuel (d * (twos k * m)) d ≡ twos k * m
unfolding round_with
round_with-exact fuel k m d h positive =
    let n = twos k * m in
    let (j, e) = last_place-twos fuel k m h in
    ap (λ x. ratio_at (last_place fuel x) (d * n) d) (mul-div_cancel_left n positive)
    ∙ ratio_at-exact (last_place fuel n) n d j (last_place-pos fuel n) positive e

-- A fraction that comes to a number of at most 53 bits, with any number of zeros behind them, is
-- rounded to itself.
pub round_ratio-exact :
    (k m d : ℕ) → m < 2 ^ 53 → 0 < d → round_ratio (d * (twos k * m)) d ≡ twos k * m
unfolding round_ratio
round_ratio-exact k m d h positive = round_with-exact 192 k m d h positive
