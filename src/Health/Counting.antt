-- ===== src/Health/Counting.antt =====
-- How many failed probes make a backend unavailable (internal/gateway/health.go, `checkOne`).
use hive_mind_fusion.Prelude.{
  ℕ, suc, ◌+◌, ◌≤◌, ◌<◌, Text, lookup, true, false, not, List, [], ◌∷◌, Option, none, some,
  if◌then◌else◌, same, same_iff, ◌≡◌, refl, arith, ℤ, pos, leb_ℤ, Option-cases, Bool-cases, ◌≢◌,
  ◌∙◌, inl, inr, ◌≤ℤ◌, max_int,
}
use native.Mathlib.Nat.{add-zero, zero-add}
use hive_mind_fusion.Health.{
  unhealthy, BackendHealth, HealthChecker, Probe, check_one, is_ok, fail, is_healthy, is_unhealthy,
}
use hive_mind_fusion.Health.Invariant.{
  Event, probed, reloaded, step, run, lookup-check_one, check_one_missing, check_one_fixed,
}

-- The events are probes, and every probe of `name` fails; `failures_of` counts those.
abbrev pub FailsFor : Text → List Event → Type 0
FailsFor name [] = Unit
FailsFor name (probed now k probe ∷ es) = (k ≡ name → is_ok probe ≡ false) × FailsFor name es
FailsFor name (reloaded cfg ∷ es) = ⊥

unfoldable pub failures_of : Text → List Event → ℕ
failures_of name [] = 0
failures_of name (probed now k probe ∷ es) =
    let rest = failures_of name es in if same k name then suc rest else rest
failures_of name (reloaded cfg ∷ es) = failures_of name es

-- The entry has seen `n` failures since its last success or its creation.
abbrev pub Counted : ℤ → ℕ → Option BackendHealth → Type 0
Counted t n none = ⊥
Counted t n (some s) = (s.failures ≡ pos n) × (is_unhealthy s.state ≡ leb_ℤ t (pos n))

fail-Counted :
    (t : ℤ) (n now : ℕ) (s : BackendHealth)
    → n < max_int
    → Counted t n (some s)
    → Counted t (n + 1) (some (fail now t s))
unfolding fail
fail-Counted t n now s h c = ground arith

Counted-some :
    (t : ℤ) (n : ℕ) (o : Option BackendHealth)
    → Counted t n o
    → (s : BackendHealth) × (o ≡ some s) × Counted t n (some s)
Counted-some t n none c = absurd c
Counted-some t n (some s) c = (s, refl, c)

-- One probe that fails if it is of `name`.
check_one-Counted :
    (now n : ℕ) (name k : Text) (probe : Probe) (t : ℤ) (hc : HealthChecker)
    → hc.threshold ≡ t
    → (k ≡ name → is_ok probe ≡ false)
    → (same k name ≡ true → n < max_int)
    → Counted t n (lookup name hc.states)
    → Counted t (if same k name then n + 1 else n) (lookup name (check_one now k probe hc).states)
check_one-Counted now n name k probe t hc fixed bad h c = elim (Option-cases (lookup k hc.states)) [
  | inl gone ↦ rw (check_one_missing now k probe hc gone) (ground (arith, same_iff k name))
  | inr (s, e) ↦
      ground
        (arith, lookup-check_one now k probe hc s name e, same_iff k name, fail-Counted t n now s)
]

run-Counted :
    (name : Text) (t : ℤ) (es : List Event) (n : ℕ) (hc : HealthChecker)
    → hc.threshold ≡ t
    → FailsFor name es
    → n + failures_of name es ≤ max_int
    → Counted t n (lookup name hc.states)
    → Counted t (n + failures_of name es) (lookup name (run hc es).states)
unfolding run failures_of step
run-Counted name t [] n hc fixed bad h c = rw add-zero c
run-Counted name t (reloaded cfg ∷ es) n hc fixed bad h c = absurd bad
run-Counted name t (probed now k probe ∷ es) n hc fixed (here, later) h c =
    let hc' = check_one now k probe hc in
    let fixed' : hc'.threshold ≡ t = (check_one_fixed now k probe hc).0 ∙ fixed in
    let one = check_one-Counted now n name k probe t hc fixed here (λ e. ground (arith, e)) c in
    elim (Bool-cases (same k name)) [
      | inl mine ↦
          let once : n + suc (failures_of name es) ≡ n + 1 + failures_of name es = omega arith in
          rw (mine, once)
            (run-Counted name t es (n + 1) hc' fixed' later (ground arith) (rw mine at one))
      | inr other ↦
          rw other (run-Counted name t es n hc' fixed' later (ground arith) (rw other at one))
    ]

-- From an entry with no failures, in a state other than unhealthy, and with a threshold of at least 1
-- and probes that all fail for this backend, no more of them than an `int` counts, in any order with
-- probes of other backends and no reload: the backend is available exactly while the failures are
-- fewer than the threshold.
pub is_healthy-run :
    (name : Text) (es : List Event) (hc : HealthChecker) (s : BackendHealth)
    → lookup name hc.states ≡ some s
    → s.failures ≡ pos 0
    → s.state ≢ unhealthy
    → pos 1 ≤ℤ hc.threshold
    → FailsFor name es
    → failures_of name es ≤ max_int
    → is_healthy name (run hc es) ≡ not (leb_ℤ hc.threshold (pos (failures_of name es)))
unfolding is_healthy
is_healthy-run name es hc s e zeroed ready h bad few =
    let n = failures_of name es in
    let start : Counted hc.threshold 0 (lookup name hc.states) = rw e (ground arith) in
    let counted = run-Counted name hc.threshold es 0 hc refl bad (rw zero-add few) start in
    let (s', found, c) =
      Counted-some hc.threshold (0 + n) (lookup name (run hc es).states) counted in
    rw found (ground arith)
