-- ===== src/Models/Lifecycle/Again.antt =====
-- A model that runs is found by its PID file and is not loaded again (internal/models/lifecycle.go, `Load`, `readPID`).
use mathlib.Core.Path.{subst}
use hive_mind_fusion.Prelude.{
  ℕ, ◌+◌, ◌^◌, ◌<◌, lt→ltb, pos, decimal, decimal_ℤ, Text, lookup, parse_int, true, some, ◌≡◌, refl,
  ap, ◌∙◌, arith,
}
use hive_mind_fusion.Numerals.{All-decimal, parse_int-decimal, trim_space-digits}
use hive_mind_fusion.Models.Lifecycle.{
  Host, Os, LoadOptions, loaded, refused, already_loaded, resolve_model_path, pid_in, read_pid,
  running_pid, load,
}
use hive_mind_fusion.Models.Lifecycle.Loading.{Loaded, load-Loaded}

pid_in-decimal_ℤ : (p : ℕ) → p < 2 ^ 63 → pid_in (some (decimal_ℤ (pos p))) ≡ some (pos p)
unfolding decimal_ℤ
pid_in-decimal_ℤ p h =
    ap parse_int (trim_space-digits (decimal p) (All-decimal p)) ∙ parse_int-decimal p h

running_pid-recorded :
    (os : Os) (h : Host) (name : Text) (p : ℕ)
    → 0 < p
    → p < 2 ^ 63
    → lookup name h.pid_files ≡ some (decimal_ℤ (pos p))
    → os.find_process (pos p) ≡ true
    → os.alive h (pos p) ≡ true
    → running_pid os h name ≡ some (pos p)
unfolding running_pid read_pid
running_pid-recorded os h name p positive small e found alive =
    rw (e, pid_in-decimal_ℤ p small, found, alive, lt→ltb (0 + 0) (p + 0) (omega arith)) refl

-- For each load that succeeds with a PID above 0 and below 2^63: while that process is alive, a further load of the
-- model is refused with its PID and changes nothing.
pub load-load :
    (os : Os) (dir name : Text) (opts : LoadOptions) (h now : Host) (p : ℕ)
    → load os dir name opts h ≡ (now, loaded (pos p))
    → 0 < p
    → p < 2 ^ 63
    → os.find_process (pos p) ≡ true
    → os.alive now (pos p) ≡ true
    → load os dir name opts now ≡ (now, refused (already_loaded (pos p)))
unfolding load
load-load os dir name opts h now p e positive small found alive =
    let path = resolve_model_path os dir name in
    let (size, there, fits, idle, new) =
      subst (Loaded os name path opts h) e (load-Loaded os dir name opts h) in
    let (started, signalled, killed, recorded, others) = new in
    let running = running_pid-recorded os now name p positive small recorded found alive in
    rw (there, fits, running) refl
