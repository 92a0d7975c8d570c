-- ===== src/Vram/Exact.antt =====
-- Estimates that the rounding of float64 does not change (internal/vram/calculator.go, `Estimate`).
use hive_mind_fusion.Prelude.{
  ℕ, ◌+◌, ◌*◌, ◌/◌, ◌%◌, ◌^◌, ◌<◌, ◌≤◌, true, leb, ltb, pos, ◌≡◌, ap, arith, ◌∙◌, sym, int_of_bits,
  diff_ℤ, times_ℤ, twos, round_ratio-exact, float_ratio, float_add, leb_ℤ,
}
use mathlib.Core.Path.{subst}
use hive_mind_fusion.Vram.{
  KvCacheType, kv_f16, kv_q8, kv_turbo3, kv_bytes, kv_mib, float_mib, draft_mib, total_mib,
  int64_of, mib, Format, estimate,
}

float_ratio-exact :
    (k m n d x : ℕ)
    → m < 2 ^ 53
    → 0 < d
    → n ≡ twos k * m
    → x ≡ d * n
    → float_ratio (pos x) d ≡ pos n
unfolding float_ratio
float_ratio-exact k m n d x h p e f =
    let same_x : x ≡ d * (twos k * m) = f ∙ ap (λ y. d * y) e in
    subst (λ y. float_ratio (pos y) d ≡ pos n) (sym same_x)
      (ap pos (round_ratio-exact k m d h p ∙ sym e))

float_add-exact :
    (m a b : ℕ) → m < 2 ^ 53 → a + b ≡ twos 54 * m → float_add (pos a) (pos b) ≡ pos (a + b)
unfolding float_add
float_add-exact m a b h e =
    let sum : diff_ℤ (a + b) (0 + 0) ≡ pos (a + b) = ground arith in
    ap (λ y. float_ratio y 1) sum
    ∙ float_ratio-exact 54 m (a + b) 1 (a + b) h (omega arith) e (omega arith)

int_of_bits-small : (n : ℕ) → n < 2 ^ 63 → int_of_bits (n % 2 ^ 64) ≡ pos n
int_of_bits-small n h = let r : n % 2 ^ 64 ≡ n = omega (arith, h) in ground (arith, r, h)

kv_bytes-small : (ctx : ℕ) → ctx < 2 ^ 40 → kv_bytes (pos ctx) ≡ pos (131_072 * ctx)
unfolding kv_bytes
kv_bytes-small ctx h = int_of_bits-small (131_072 * ctx) (omega (arith, h))

-- How many sixteenths of a MiB a token takes in the cache; not a whole number of them for turbo3.
abbrev pub HasShare : KvCacheType → ℕ → Type 0
HasShare kv_f16 share = share ≡ 2
HasShare kv_q8 share = share ≡ 1
HasShare kv_turbo3 share = ⊥

kv_mib-exact :
    (kv : KvCacheType) (share ctx : ℕ)
    → HasShare kv share
    → ctx < 2 ^ 40
    → kv_mib kv (pos ctx) ≡ pos (2 ^ 54 * (share * ctx))
unfolding kv_mib
kv_mib-exact kv_f16 share ctx e h =
    rw (kv_bytes-small ctx h, e)
      (float_ratio-exact 55 ctx (2 ^ 54 * (2 * ctx)) 1 (2 ^ 38 * (131_072 * ctx)) (omega (arith, h))
        (omega arith) (omega arith) (omega arith))
kv_mib-exact kv_q8 share ctx e h =
    rw (kv_bytes-small ctx h, e)
      (float_ratio-exact 54 ctx (2 ^ 54 * (1 * ctx)) 2 (2 ^ 38 * (131_072 * ctx)) (omega (arith, h))
        (omega arith) (omega arith) (omega arith))
kv_mib-exact kv_turbo3 share ctx e h = absurd e

float_mib-exact : (n : ℕ) → n < 2 ^ 40 → float_mib (pos n) ≡ pos (2 ^ 54 * (16 * n))
unfolding float_mib
float_mib-exact n h =
    float_ratio-exact 58 n (2 ^ 54 * (16 * n)) 1 (2 ^ 58 * n) (omega (arith, h)) (omega arith)
      (omega arith) (omega arith)

-- `n` tokens take at most two sixteenths each.
share-bound : (kv : KvCacheType) (share ctx : ℕ) → HasShare kv share → share * ctx ≤ 2 * ctx
share-bound kv_f16 share ctx e = rw e (omega arith)
share-bound kv_q8 share ctx e = rw e (omega arith)
share-bound kv_turbo3 share ctx e = absurd e

total_mib-exact :
    (kv : KvCacheType) (share size ctx n : ℕ)
    → HasShare kv share
    → size < 2 ^ 40
    → ctx < 2 ^ 40
    → n < 2 ^ 40
    → total_mib (pos size) (pos ctx) kv (pos n)
      ≡ pos (2 ^ 54 * (16 * size + share * ctx + 4_096 * n))
unfolding total_mib draft_mib
total_mib-exact kv share size ctx n e hs hc hn =
    let bound = share-bound kv share ctx e in
    let m = 16 * size + share * ctx in
    let first =
      float_add-exact m (2 ^ 54 * (16 * size)) (2 ^ 54 * (share * ctx))
        (omega (arith, bound, hs, hc)) (omega arith) in
    let once : 2 ^ 54 * (16 * size) + 2 ^ 54 * (share * ctx) ≡ 2 ^ 54 * m = omega arith in
    let second =
      float_add-exact (m + 4_096 * n) (2 ^ 54 * m) (256 * (2 ^ 54 * (16 * n)))
        (omega (arith, bound, hs, hc, hn)) (omega arith) in
    let twice : 2 ^ 54 * m + 256 * (2 ^ 54 * (16 * n)) ≡ 2 ^ 54 * (m + 4_096 * n) = omega arith in
    let steps = float_mib (pos n) in
    ap (λ x. float_add (float_add x (kv_mib kv (pos ctx))) (times_ℤ 256 steps))
      (float_mib-exact size hs)
    ∙ (ap (λ x. float_add (float_add (pos (2 ^ 54 * (16 * size))) x) (times_ℤ 256 steps))
          (kv_mib-exact kv share ctx e hc)
        ∙ (ap (λ x. float_add x (times_ℤ 256 steps)) (first ∙ ap pos once)
            ∙ (ap (λ x. float_add (pos (2 ^ 54 * m)) (times_ℤ 256 x)) (float_mib-exact n hn)
                ∙ (second ∙ ap pos twice))))

-- In sixteenths of a MiB.
abbrev pub parts : ℕ → ℕ → ℕ → ℕ → ℕ
parts size share ctx n = 16 * size + share * ctx + 4_096 * n

int64_of-parts : (x : ℕ) → x < 2 ^ 53 → int64_of (pos (2 ^ 54 * x)) ≡ pos (x / 16)
unfolding int64_of
int64_of-parts x h =
    let whole : 2 ^ 54 * x / 2 ^ 58 ≡ x / 16 = omega arith in
    let small : ltb (2 ^ 54 * x / 2 ^ 58) (2 ^ 63) ≡ true = ground (arith, whole, h) in
    rw small (ap pos whole)

fits-parts : (x : ℕ) → leb_ℤ (pos (2 ^ 54 * x)) (pos (24 * 1024 * mib)) ≡ leb x (16 * 24_576)
fits-parts x = ground arith

-- For the cache types f16 and q8, with 2 and 1 sixteenths of a MiB for a token, and a file size in MiB, a context and a
-- number of draft steps below 2^40, none of them negative: the rounding of float64 changes nothing. With the sum of the size, the
-- cache and 256 MiB for each step, in sixteenths of a MiB, the model fits exactly if the sum is at
-- most 24576 MiB, and the estimate is the sum in whole MiB, rounded down.
pub estimate-exact :
    (format : Format) (kv : KvCacheType) (share size ctx n : ℕ)
    → HasShare kv share
    → size < 2 ^ 40
    → ctx < 2 ^ 40
    → n < 2 ^ 40
    → ((estimate format (pos size) (pos ctx) kv (pos n)).fits_in_24gb
        ≡ leb (parts size share ctx n) (16 * 24_576))
      × ((estimate format (pos size) (pos ctx) kv (pos n)).estimate_mib
          ≡ pos (parts size share ctx n / 16))
unfolding estimate
estimate-exact format kv share size ctx n e hs hc hn =
    let bound = share-bound kv share ctx e in
    let total = total_mib-exact kv share size ctx n e hs hc hn in
    let x = parts size share ctx n in
    (
      ap (λ t. leb_ℤ t (pos (24 * 1024 * mib))) total ∙ fits-parts x,
      ap int64_of total ∙ int64_of-parts x (omega (arith, bound, hs, hc, hn)),
    )
