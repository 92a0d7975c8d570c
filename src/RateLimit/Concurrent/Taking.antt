-- ===== src/RateLimit/Concurrent/Taking.antt =====
-- A take of a shared bucket (internal/gateway/ratelimit.go, `take`).
use mathlib.Core.Path.{subst}
use hive_mind_fusion.Prelude.{
  ℕ, ◌<◌, ==_iff, Text, same, same_iff, lookup, Bool-cases, Option, none, some, List, length, set,
  get_elem?, get_elem?-set, length-set, ◌≡◌, ◌≢◌, refl, sym, ap, ◌∙◌, inl, inr, arith,
}
use hive_mind_fusion.RateLimit.{Bucket, take}
use hive_mind_fusion.RateLimit.Limiter.{Limits, limit_of, RateLimiter, request, answer}
use hive_mind_fusion.RateLimit.Fairness.{request_lem, bucket_or}
use hive_mind_fusion.RateLimit.Concurrent.{idle, holding, Shared, take_at}
use hive_mind_fusion.RateLimit.Concurrent.Invariant.{
  replayed, bucket_of, Rel, Rel-take, put-cases, limit, Inv,
}

get_elem?-set_self :
    (xs : List Bucket) (p : ℕ) (b : Bucket) → p < length xs → get_elem? (set xs p b) p ≡ some b
get_elem?-set_self xs p b h = ground (arith, get_elem?-set xs p p b, length-set xs p b, ==_iff p p)

get_elem?-set_other :
    (xs : List Bucket) (p q : ℕ) (b : Bucket)
    → q < length xs
    → p ≢ q
    → get_elem? (set xs p b) q ≡ get_elem? xs q
get_elem?-set_other xs p q b h ne =
    ground (arith, get_elem?-set xs p q b, length-set xs p b, ==_iff p q)

bucket_of-set :
    (xs : List Bucket) (p : ℕ) (b : Bucket) (o : Option ℕ)
    → ((q : ℕ) → o ≡ some q → q < length xs)
    → ((q : ℕ) → o ≡ some q → p ≢ q)
    → bucket_of (set xs p b) o ≡ bucket_of xs o
bucket_of-set xs p b none h ne = refl
bucket_of-set xs p b (some q) h ne = get_elem?-set_other xs p q b (h q refl) (ne q refl)

module _ (cfg : Limits) (s : Shared) (c : Text) (p : ℕ) (b : Bucket) (v : Inv cfg s)
    (at : lookup c s.buckets ≡ some p) (is : get_elem? s.heap p ≡ some b) where
  abbrev rl : RateLimiter
  rl = replayed cfg s.log

  abbrev due : Bucket
  due = bucket_or s.clock (limit_of c rl.cfg) (lookup c rl.buckets)

  -- The take of the bucket in the heap is that of the replay.
  take-due : take s.clock b ≡ take s.clock due
  take-due =
      let o = lookup c rl.buckets in
      let own : Rel s.clock (limit cfg c) (some b) o =
        subst (λ x. Rel s.clock (limit cfg c) x o) (ap (bucket_of s.heap) at ∙ is) (v.related c) in
      Rel-take s.clock (limit cfg c) b o own
      ∙ ap (λ x. take s.clock (bucket_or s.clock (limit_of c x) o)) (sym v.replay_settled)

  taken-Rel :
      (d : Text)
      → Rel s.clock
          (limit cfg d)
          (bucket_of (set s.heap p (take s.clock b).0) (lookup d s.buckets))
          (lookup d (request s.clock c rl).0.buckets)
  taken-Rel d =
      let new = (take s.clock b).0 in
      let after = (request_lem s.clock c d rl).0 in
      elim (Bool-cases (same c d)) [
        | inl y ↦
            let cd = (same_iff c d).0 y in
            let at_d : lookup d s.buckets ≡ some p =
              subst (λ x. lookup x s.buckets ≡ some p) cd at in
            let here : bucket_of (set s.heap p new) (lookup d s.buckets) ≡ some new =
              ap (bucket_of (set s.heap p new)) at_d
              ∙ get_elem?-set_self s.heap p new (v.inside c p at) in
            let there : lookup d (request s.clock c rl).0.buckets ≡ some (take s.clock due).0 =
              after ∙ rw y refl in
            subst (λ x. Rel s.clock (limit cfg d) x (lookup d (request s.clock c rl).0.buckets))
              (sym here)
              (subst (λ x. Rel s.clock (limit cfg d) (some new) x) (sym there)
                (ap (λ x. x.0) take-due))
        | inr n ↦
            let there : lookup d (request s.clock c rl).0.buckets ≡ lookup d rl.buckets =
              after ∙ rw n refl in
            let here = bucket_of-set s.heap p new (lookup d s.buckets) (v.inside d) (λ q at_d e.
              let same_name = v.apart c d p at (at_d ∙ ap some (sym e)) in
              ground (arith, same_iff c d)) in
            subst (λ x. Rel s.clock (limit cfg d) x (lookup d (request s.clock c rl).0.buckets))
              (sym here)
              (subst (λ x. Rel s.clock (limit cfg d) (bucket_of s.heap (lookup d s.buckets)) x)
                (sym there) (v.related d))
      ]

  pub taken-Inv : (i : ℕ) → Inv cfg (take_at i c p b s)
  unfolding take_at replayed
  taken-Inv i = record {
    settled = v.settled;
    replay_settled = (request_lem s.clock c c rl).2 ∙ v.replay_settled;
    replays = (ap (λ x. answer x.1) take-due ∙ sym (request_lem s.clock c c rl).1, v.replays);
    inside = λ d q h.
        let kept = length-set s.heap p (take s.clock b).0 in
        let before = v.inside d q h in omega arith;
    apart = v.apart;
    holds = λ j d q h. elim (put-cases i j idle (holding d q) s.threads h) [
      | inl its ↦ absurd cc
      | inr other ↦ v.holds j d q other
    ];
    related = taken-Rel;
  }
