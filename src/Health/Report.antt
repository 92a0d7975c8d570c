-- ===== src/Health/Report.antt =====
-- The report of GET /health on the admin port (internal/gateway/health.go, `ServeHTTP`).
use hive_mind_fusion.Prelude.{
  ℕ, Text, text, Map, lookup, has_key, Bool, true, false, not, ◌&&◌, same_refl, List, [], ◌∷◌,
  Option, none, some, if◌then◌else◌, ◌≡◌, ◌≢◌, ◌↔◌, ◌∙◌, refl, arith, ◌==◌, All, map, Option-cases,
  Bool-cases, inl, inr,
}
use hive_mind_fusion.Config.{Backend}
use hive_mind_fusion.Health.{
  BackendState, unknown, healthy, unhealthy, BackendHealth, HealthChecker, is_unhealthy, seen,
}
use hive_mind_fusion.Health.Gpu.{VramInfo, query_vram}
use hive_mind_fusion.Health.Invariant.{IsSound}

pub record BackendStatus : Type 0 where
  pub name : Text
  pub state : Text
  pub last_check : Text

pub record HealthResponse : Type 0 where
  pub status : Text
  pub backends : List BackendStatus
  pub vram : Option VramInfo

unfoldable pub state_text : BackendState → Text
state_text healthy = text "healthy"
state_text unhealthy = text "unhealthy"
state_text unknown = text "unknown"

-- `time.Format` is the argument; the zero time is shown as "".
unfoldable pub last_text : (ℕ → Text) → BackendHealth → Text
last_text format s = if s.last_check == 0 then [] else format s.last_check

abbrev pub down : Backend → BackendHealth → Bool
down b s = is_unhealthy s.state && not b.expected_down

abbrev pub Lines : Type 0
Lines = List BackendStatus × Bool

unfoldable pub report_line : (ℕ → Text) → Backend → BackendHealth → Lines → Lines
report_line format b s (lines, all_healthy) = (
  record { name = b.name; state = state_text s.state; last_check = last_text format s } ∷ lines,
  (if down b s then false else all_healthy),
)

abbrev pub line_after : (ℕ → Text) → Backend → Option BackendHealth → Option Lines → Option Lines
line_after format b none rest = none
line_after format b (some s) none = none
line_after format b (some s) (some rest) = some (report_line format b s rest)

-- The loop over the backends; `none` is the panic on a nil entry.
unfoldable pub report_lines : (ℕ → Text) → Map BackendHealth → List Backend → Option Lines
report_lines format states [] = some ([], true)
report_lines format states (b ∷ bs) =
    line_after format b (lookup b.name states) (report_lines format states bs)

abbrev pub respond : Option VramInfo → Option Lines → Option HealthResponse
respond vram none = none
respond vram (some (lines, all_healthy)) = some (record {
  status = if all_healthy then text "ok" else text "degraded";
  backends = lines;
  vram = vram;
})

-- The second argument is the output of nvidia-smi.
unfoldable pub report : (ℕ → Text) → Option Text → HealthChecker → Option HealthResponse
report format out hc = respond (query_vram out) (report_lines format hc.states hc.backends)

-- Every backend of the list has an entry, and no entry of a backend that is expected to be up is
-- unhealthy.
abbrev pub IsUp : Map BackendHealth → Backend → Type 0
IsUp states b =
    b.expected_down ≡ false
    → (s : BackendHealth) → lookup b.name states ≡ some s
    → s.state ≢ unhealthy

IsUp-iff :
    (states : Map BackendHealth) (b : Backend) (s : BackendHealth)
    → lookup b.name states ≡ some s
    → IsUp states b ↔ (down b s ≡ false)
IsUp-iff states b s e = (
  λ u. elim (Bool-cases b.expected_down) [
    | inl expected ↦ ground arith
    | inr needed ↦ ground (arith, u needed s e)
  ],
  λ d expected s' e' bad. ground (arith, e, e'),
)

module _ (format : ℕ → Text) (states : Map BackendHealth) where
  report_lines_total :
      (bs : List Backend)
      → All (λ (b : Backend). has_key b.name states ≡ true) bs
      → (r : Lines) × (report_lines format states bs ≡ some r)
        × (map (λ (l : BackendStatus). l.name) r.0 ≡ map (λ (b : Backend). b.name) bs)
        × ((r.1 ≡ true) ↔ All (IsUp states) bs)
  unfolding report_lines report_line
  report_lines_total [] h = (([], true), refl, refl, (λ e. tt, λ u. refl))
  report_lines_total (b ∷ bs) (here, later) =
      let (r, found, names, up) = report_lines_total bs later in
      elim (Option-cases (lookup b.name states)) [
        | inl gone ↦ absurd (ground arith)
        | inr (s, e) ↦ (
          report_line format b s r,
          rw (e, found),
          ground arith,
          ground (arith, IsUp-iff states b s e, up),
        )
      ]

covered-of-seen :
    (states : Map BackendHealth) (all_bs bs : List Backend)
    → ((name : Text) → has_key name states ≡ seen all_bs name)
    → ((name : Text) → seen bs name ≡ true → seen all_bs name ≡ true)
    → All (λ (b : Backend). has_key b.name states ≡ true) bs
unfolding seen
covered-of-seen states all_bs [] h sub = tt
covered-of-seen states all_bs (b ∷ bs) h sub = (
  h b.name ∙ sub b.name (rw (same_refl b.name)),
  covered-of-seen states all_bs bs h (λ n e. sub n (ground arith)),
)

degraded-ne-ok : text "degraded" ≢ text "ok"
unfolding text
degraded-ne-ok e = cc

-- In every sound state of the checker the report does not dereference a missing entry; it has a line
-- for each configured backend, in the order of the configuration, and its status is "ok" exactly
-- when no backend is unhealthy but those that are expected to be down.
report_lem :
    (format : ℕ → Text) (out : Option Text) (hc : HealthChecker)
    → IsSound hc
    → (r : HealthResponse) × (report format out hc ≡ some r)
      × (map (λ (l : BackendStatus). l.name) r.backends ≡ map (λ (b : Backend). b.name) hc.backends)
      × ((r.status ≡ text "ok") ↔ All (IsUp hc.states) hc.backends)
unfolding report
report_lem format out hc h =
    let covered = covered-of-seen hc.states hc.backends hc.backends h.covered (λ n e. e) in
    let (r, found, names, up) = report_lines_total format hc.states hc.backends covered in
    (
      record {
        status = if r.1 then text "ok" else text "degraded";
        backends = r.0;
        vram = query_vram out;
      },
      rw found,
      names,
      ground (arith, up, degraded-ne-ok),
    )
