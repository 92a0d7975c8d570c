-- ===== src/Pii/Breaker.antt =====
-- When the circuit breaker opens, and that it stays open (internal/pii/client.go).
use hive_mind_fusion.Prelude.{
  ℕ, ◌+◌, ◌≤◌, Bool, true, List, [], ◌∷◌, some, ◌≡◌, refl, arith, All, Any, map, inl, inr, ◌⊎◌, ◌∙◌,
  Option-cases,
}
use hive_mind_fusion.Pii.{
  ScanRequest, unreachable, Shield, Client, is_open, record_failure, record_success, ScanResult,
  bypass_or, breaker_open, after_post, scan, new_client,
}

-- One scan of a run: the shield at that moment, the two readings of the clock and the request.
pub record Attempt : Type 0 where
  pub shield : Shield
  pub now : ℕ
  pub later : ℕ
  pub request : ScanRequest

unfoldable pub scan_all : List Attempt → Client → Client × List ScanResult
scan_all [] c = (c, [])
scan_all (a ∷ attempts) c =
    let (c', r) = scan a.shield a.now a.later a.request c in
    let (c'', rs) = scan_all attempts c' in (c'', r ∷ rs)

pub is_open_mono :
    (now now' : ℕ) (c : Client) → now ≤ now' → is_open now c ≡ true → is_open now' c ≡ true
unfolding is_open
is_open_mono now now' c h e = ground arith

-- Once the breaker is open it stays open and the client never asks the shield again, whatever the
-- shield would answer: every later scan is bypassed or refused as the configuration says, and the
-- state does not change.
scan_all-open :
    (attempts : List Attempt) (now : ℕ) (c : Client)
    → is_open now c ≡ true
    → All (λ (a : Attempt). now ≤ a.now) attempts
    → scan_all attempts c
      ≡ (c, map (λ (a : Attempt). bypass_or c a.request.content breaker_open) attempts)
unfolding scan_all scan
scan_all-open [] now c h later = refl
scan_all-open (a ∷ attempts) now c h (here, later) =
    ground (arith, is_open_mono now a.now c here h, scan_all-open attempts now c h later)

-- A scan that the shield did not answer, and whose failure was recorded at this time.
abbrev pub FailedAt : ℕ → Attempt → Type 0
FailedAt t a = (a.shield a.request ≡ unreachable) × (a.later ≡ t)

scan-first_failure :
    (a : Attempt) (c : Client) (t : ℕ)
    → (scan a.shield a.now a.later a.request c).0.first_failure ≡ some t
    → (c.first_failure ≡ some t) ⊎ FailedAt t a
unfolding scan after_post record_failure record_success
scan-first_failure a c t h = ground arith

scan_all-first_failure :
    (attempts : List Attempt) (c : Client) (t : ℕ)
    → (scan_all attempts c).0.first_failure ≡ some t
    → (c.first_failure ≡ some t) ⊎ Any (FailedAt t) attempts
unfolding scan_all
scan_all-first_failure [] c t h = inl h
scan_all-first_failure (a ∷ attempts) c t h =
    let rest = scan_all-first_failure attempts (scan a.shield a.now a.later a.request c).0 t h in
    elim rest [
      | inr later ↦ inr (inr later)
      | inl before ↦ elim (scan-first_failure a c t before) [
        | inl old ↦ inl old
        | inr fresh ↦ inr (inl fresh)
      ]
    ]

scan-cb_timeout :
    (a : Attempt) (c : Client)
    → (scan a.shield a.now a.later a.request c).0.cb_timeout ≡ c.cb_timeout
unfolding scan after_post record_failure record_success
scan-cb_timeout a c = ground arith

cb_timeout-scan_all :
    (attempts : List Attempt) (c : Client) → (scan_all attempts c).0.cb_timeout ≡ c.cb_timeout
unfolding scan_all
cb_timeout-scan_all [] c = refl
cb_timeout-scan_all (a ∷ attempts) c =
    cb_timeout-scan_all attempts (scan a.shield a.now a.later a.request c).0 ∙ scan-cb_timeout a c

cb_timeout-new_client : (bypass : Bool) → (new_client bypass).cb_timeout ≡ 30_000_000_000
unfolding new_client
cb_timeout-new_client bypass = refl

from_new :
    (attempts : List Attempt) (bypass : Bool) (t : ℕ)
    → (scan_all attempts (new_client bypass)).0.first_failure ≡ some t
    → Any (FailedAt t) attempts
unfolding new_client
from_new attempts bypass t h = elim (scan_all-first_failure attempts (new_client bypass) t h) [
  | inl old ↦ absurd (ground arith)
  | inr failed ↦ failed
]

-- The breaker of a new client is open only if one of the scans found the shield unreachable at least
-- 30 seconds before.
scan_all-is_open :
    (bypass : Bool) (attempts : List Attempt) (now : ℕ)
    → is_open now (scan_all attempts (new_client bypass)).0 ≡ true
    → (t : ℕ) × (t + 30_000_000_000 ≤ now) × Any (FailedAt t) attempts
unfolding is_open
scan_all-is_open bypass attempts now h =
    let c = (scan_all attempts (new_client bypass)).0 in
    elim (Option-cases c.first_failure) [
      | inl closed ↦ absurd (ground arith)
      | inr (t, failed) ↦ (
        t,
        ground
            (arith, cb_timeout-scan_all attempts (new_client bypass), cb_timeout-new_client bypass),
        from_new attempts bypass t failed,
      )
    ]
