-- ===== src/Fallback/Sorting.antt =====
-- The order of a fallback chain (internal/gateway/fallback.go).
use hive_mind_fusion.Prelude.{
  pos, negsuc, ◌≤ℤ◌, is_zero, ltb_ℤ, if◌then◌else◌, ◌+◌, [], ◌∷◌, Bool, true, false, ℤ, pos_part,
  neg_part, ◌==◌, All, keep, Bool-cases, inl, inr, ◌≡◌, refl, arith,
}
use hive_mind_fusion.Config.{Backend}
use hive_mind_fusion.Fallback.{Chain, rank, less, insert_sorted, sort_stable}

-- The place that a priority asks for: 0 is for 2^31 - 1.
abbrev pub precedence : ℤ → ℤ
precedence (pos n) = if n == 0 then pos 2_147_483_647 else pos n
precedence (negsuc n) = negsuc n

-- Each backend comes before those behind it.
abbrev pub IsSorted : Chain → Type 0
IsSorted [] = Unit
IsSorted (b ∷ bs) =
    All (λ (x : Backend). precedence b.priority ≤ℤ precedence x.priority) bs × IsSorted bs

-- Whether the priority of a backend asks for this place.
abbrev pub has_precedence : ℤ → Backend → Bool
has_precedence p b =
    let q = precedence b.priority in pos_part q + neg_part p == pos_part p + neg_part q

priority_lem : (p : ℤ) → (if is_zero p then pos 2_147_483_647 else p) ≡ precedence p
priority_lem (pos n) = ground arith
priority_lem (negsuc n) = refl

rank_lem : (b : Backend) → rank b ≡ precedence b.priority
unfolding rank
rank_lem b = priority_lem b.priority

less_lem : (a b : Backend) → less a b ≡ ltb_ℤ (precedence a.priority) (precedence b.priority)
unfolding less
less_lem a b = rw (rank_lem a, rank_lem b) refl

less-before : (a b : Backend) → less a b ≡ true → precedence a.priority ≤ℤ precedence b.priority
less-before a b h = ground (arith, less_lem a b, h)

less-after : (a b : Backend) → less a b ≡ false → precedence b.priority ≤ℤ precedence a.priority
less-after a b h = ground (arith, less_lem a b, h)

less-apart :
    (p : ℤ) (a b : Backend)
    → less a b ≡ true
    → has_precedence p a ≡ true
    → has_precedence p b ≡ false
less-apart p a b h k = ground (arith, less_lem a b, h, k)

pub insert_sorted-All :
    (P : Backend → Type 0) (b : Backend) (xs : Chain) → P b → All P xs → All P (insert_sorted b xs)
unfolding insert_sorted
insert_sorted-All P b [] p h = (p, tt)
insert_sorted-All P b (x ∷ xs) p (q, h) = elim (Bool-cases (less x b)) [
  | inl before ↦ rw before (q, insert_sorted-All P b xs p h)
  | inr after ↦ rw after (p, (q, h))
]

≤ℤ_trans : (a b c : ℤ) → a ≤ℤ b → b ≤ℤ c → a ≤ℤ c
≤ℤ_trans a b c h k = omega (arith, h, k)

All-from :
    (a b : ℤ) (xs : Chain)
    → a ≤ℤ b
    → All (λ (x : Backend). b ≤ℤ precedence x.priority) xs
    → All (λ (x : Backend). a ≤ℤ precedence x.priority) xs
All-from a b [] h k = tt
All-from a b (x ∷ xs) h (p, k) = (≤ℤ_trans a b (precedence x.priority) h p, All-from a b xs h k)

insert_sorted-IsSorted : (b : Backend) (xs : Chain) → IsSorted xs → IsSorted (insert_sorted b xs)
unfolding insert_sorted
insert_sorted-IsSorted b [] h = (tt, tt)
insert_sorted-IsSorted b (x ∷ xs) (p, h) = elim (Bool-cases (less x b)) [
  | inl before ↦ rw before (
    insert_sorted-All (λ (y : Backend). precedence x.priority ≤ℤ precedence y.priority) b xs
        (less-before x b before) p,
    insert_sorted-IsSorted b xs h,
  )
  | inr after ↦
      let first = less-after x b after in
      rw after
        ((first, All-from (precedence b.priority) (precedence x.priority) xs first p), (p, h))
]

keep-insert_sorted :
    (p : ℤ) (b : Backend) (xs : Chain)
    → keep (has_precedence p) (insert_sorted b xs) ≡ keep (has_precedence p) (b ∷ xs)
unfolding insert_sorted
keep-insert_sorted p b [] = refl
keep-insert_sorted p b (x ∷ xs) = ground (arith, keep-insert_sorted p b xs, less-apart p x b)

sort_stable-IsSorted : (xs : Chain) → IsSorted (sort_stable xs)
unfolding sort_stable
sort_stable-IsSorted [] = tt
sort_stable-IsSorted (b ∷ bs) = insert_sorted-IsSorted b (sort_stable bs) (sort_stable-IsSorted bs)

-- Sorting keeps, for each precedence, the backends that have it in their order.
keep-sort_stable :
    (p : ℤ) (xs : Chain) → keep (has_precedence p) (sort_stable xs) ≡ keep (has_precedence p) xs
unfolding sort_stable
keep-sort_stable p [] = refl
keep-sort_stable p (b ∷ bs) =
    ground (arith, keep-insert_sorted p b (sort_stable bs), keep-sort_stable p bs)

pub sort_stable_lem :
    (xs : Chain)
    → IsSorted (sort_stable xs)
      × ((p : ℤ) → keep (has_precedence p) (sort_stable xs) ≡ keep (has_precedence p) xs)
sort_stable_lem xs = (sort_stable-IsSorted xs, λ p. keep-sort_stable p xs)
