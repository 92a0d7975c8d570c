-- ===== src/RateLimit/Concurrent/Linear.antt =====
-- Concurrent requests are answered as one after another (internal/gateway/ratelimit.go).
use mathlib.Core.Path.{subst}
use hive_mind_fusion.Prelude.{
  ℕ, ◌<◌, Text, same, same_iff, lookup, insert, lookup-insert, Bool-cases, Option, none, some, List,
  [], ◌∷◌, ◌++◌, length, length-append, ◌≡◌, refl, sym, ap, ◌∙◌, inl, inr, arith,
}
use hive_mind_fusion.RateLimit.{Bucket, new_bucket}
use hive_mind_fusion.RateLimit.Limiter.{Limit, Limits, limit_of, new_rate_limiter, with_defaults}
use hive_mind_fusion.RateLimit.Concurrent.{
  missed, holding, Shared, started, under_lock, create, Step, tick, found, miss, created, taken,
  Reach, here, next,
}
use hive_mind_fusion.RateLimit.Concurrent.Taking.{taken-Inv}
use hive_mind_fusion.RateLimit.Concurrent.Invariant.{
  replayed, Replays, bucket_of, Rel, Rel-none, get_elem?-append, get_elem?-last, put-cases, limit,
  Inv, put-Inv, tick-Inv,
}

bucket_of-append :
    (xs ys : List Bucket) (o : Option ℕ)
    → ((p : ℕ) → o ≡ some p → p < length xs)
    → bucket_of (xs ++ ys) o ≡ bucket_of xs o
bucket_of-append xs ys none h = refl
bucket_of-append xs ys (some p) h = get_elem?-append xs ys p (h p refl)

found-right :
    (s : Shared) (c d : Text) (p q : ℕ)
    → lookup c s.buckets ≡ some p
    → holding c p ≡ holding d q
    → lookup d s.buckets ≡ some q
found-right s c d p q at e =
    let cd : c ≡ d = cc in
    let pq : p ≡ q = cc in ap (λ x. lookup x s.buckets) (sym cd) ∙ (at ∙ ap some pq)

module _ (cfg : Limits) where
  -- A consumer that has no bucket yet has none in the replay, and gets a full one.
  new-Rel :
      (s : Shared) (c d : Text)
      → lookup c s.buckets ≡ none
      → c ≡ d
      → Inv cfg s
      → Rel s.clock
          (limit cfg d)
          (bucket_of
            (s.heap
              ++ (new_bucket s.clock (limit_of c s.cfg).requests_per_minute (limit_of c s.cfg).burst
                  ∷ []))
            (lookup d (insert c (length s.heap) s.buckets)))
          (lookup d (replayed cfg s.log).buckets)
  new-Rel s c d gone cd v =
      let l = limit_of c s.cfg in
      let b = new_bucket s.clock l.requests_per_minute l.burst in
      let o = lookup d (replayed cfg s.log).buckets in
      let gone' : lookup d s.buckets ≡ none = subst (λ x. lookup x s.buckets ≡ none) cd gone in
      let unseen : o ≡ none =
        Rel-none s.clock (limit cfg d) o
          (subst (λ q. Rel s.clock (limit cfg d) (bucket_of s.heap q) o) gone' (v.related d)) in
      let placed : lookup d (insert c (length s.heap) s.buckets) ≡ some (length s.heap) =
        lookup-insert c d (length s.heap) s.buckets ∙ rw ((same_iff c d).1 cd) refl in
      let is = ap (bucket_of (s.heap ++ (b ∷ []))) placed ∙ get_elem?-last s.heap b in
      let limits : l ≡ limit cfg d =
        ap (limit_of c) v.settled ∙ ap (λ x. limit_of x (with_defaults cfg)) cd in
      let full = ap (λ (x : Limit). new_bucket s.clock x.requests_per_minute x.burst) limits in
      subst (λ q. Rel s.clock (limit cfg d) q o) (sym is)
        (subst (λ q. Rel s.clock (limit cfg d) (some b) q) (sym unseen)
          (s.clock, omega arith, full))

  -- A new bucket at the end of the heap.
  new-Inv :
      (s : Shared) (i : ℕ) (c : Text)
      → lookup c s.buckets ≡ none
      → Inv cfg s
      → Inv cfg (under_lock i c none s)
  new-Inv s i c gone v =
      let l = limit_of c s.cfg in
      let b = new_bucket s.clock l.requests_per_minute l.burst in
      let n = length s.heap in
      let more = length-append s.heap (b ∷ []) in
      let at = λ (d : Text). lookup-insert c d n s.buckets in
      record {
        settled = v.settled;
        replay_settled = v.replay_settled;
        replays = v.replays;
        inside = λ d p h. ground (arith, at d, more, v.inside d p);
        apart = λ d e p h k. ground (
          arith,
          at d,
          at e,
          v.inside d p,
          v.inside e p,
          v.apart d e p,
          same_iff c d,
          same_iff c e,
        );
        holds = λ j d p h. elim (put-cases i j (holding c n) (holding d p) s.threads h) [
          | inl its ↦
              let cd : c ≡ d = cc in
              let np : n ≡ p = cc in ground (arith, at d, cd, np, same_iff c d)
          | inr other ↦ ground (arith, at d, v.holds j d p other, same_iff c d, gone)
        ];
        related = λ d. elim (Bool-cases (same c d)) [
          | inl y ↦ new-Rel s c d gone ((same_iff c d).0 y) v
          | inr other ↦
              let same_lookup = at d ∙ rw other refl in
              let same_bucket =
                ap (bucket_of (s.heap ++ (b ∷ []))) same_lookup
                ∙ bucket_of-append s.heap (b ∷ []) (lookup d s.buckets) (v.inside d) in
              subst (λ o. Rel s.clock (limit cfg d) o (lookup d (replayed cfg s.log).buckets))
                (sym same_bucket) (v.related d)
        ];
      }

  under_lock-Inv :
      (s : Shared) (i : ℕ) (c : Text) (o : Option ℕ)
      → lookup c s.buckets ≡ o
      → Inv cfg s
      → Inv cfg (under_lock i c o s)
  under_lock-Inv s i c none at v = new-Inv s i c at v
  under_lock-Inv s i c (some p) at v =
      put-Inv cfg s i (holding c p) (λ d q e. found-right s c d p q at e) v

  Step-Inv : (s t : Shared) → Step s t → Inv cfg s → Inv cfg t
  unfolding create
  Step-Inv s t (tick now h) v = tick-Inv cfg s now h v
  Step-Inv s t (found i c p free at) v =
      put-Inv cfg s i (holding c p) (λ d q e. found-right s c d p q at e) v
  Step-Inv s t (miss i c free gone) v = put-Inv cfg s i (missed c) (λ d q e. absurd cc) v
  Step-Inv s t (created i c at) v = under_lock-Inv s i c (lookup c s.buckets) refl v
  Step-Inv s t (taken i c p b at is) v = taken-Inv cfg s c p b v (v.holds i c p at) is i

  started-Inv : (clock : ℕ) → Inv cfg (started cfg clock)
  unfolding replayed new_rate_limiter lookup
  started-Inv clock = record {
    settled = refl;
    replay_settled = refl;
    replays = tt;
    inside = λ c p h. absurd cc;
    apart = λ c d p h k. absurd cc;
    holds = λ i c p h. absurd cc;
    related = λ c. tt;
  }

  Reach-Inv : (clock : ℕ) (s : Shared) → Reach (started cfg clock) s → Inv cfg s
  Reach-Inv clock s here = started-Inv clock
  Reach-Inv clock s (next {t = t} r st) = Step-Inv t s st (Reach-Inv clock t r)

-- In every interleaving of the locked sections of any number of requests, on a clock that does not go back, the answers are
-- those that the same requests get one after another, in the order in which they took from their buckets and at
-- those times.
pub Reach-Replays :
    (cfg : Limits) (clock : ℕ) (s : Shared) → Reach (started cfg clock) s → Replays cfg s.log
Reach-Replays cfg clock s r = (Reach-Inv cfg clock s r).replays
