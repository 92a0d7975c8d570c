-- ===== src/Models/Launcher.antt =====
-- The command line of llama-server and the path of its PID file (internal/models/launcher.go).
use hive_mind_fusion.Prelude.{
  ℤ, pos, ltb_ℤ, is_zero, decimal_ℤ, Text, text, List, [], ◌∷◌, ◌++◌, if◌then◌else◌,
}

pub record LaunchParams : Type 0 where
  pub model_path : Text
  pub context_len : ℤ
  pub spec_n_max : ℤ
  pub port : ℤ
  pub host : Text

pub record Command : Type 0 where
  pub program : Text
  pub args : List Text

abbrev pub host_or : Text → Text
host_or [] = text "127.0.0.1"
host_or (c ∷ host) = c ∷ host

unfoldable pub build_command : LaunchParams → Command
unfolding text decimal_ℤ
build_command p = record {
  program = text "llama-server";
  args =
      text "--model"
      ∷ p.model_path
      ∷ text "--host"
      ∷ host_or p.host
      ∷ text "--port"
      ∷ decimal_ℤ (if is_zero p.port then pos 8080 else p.port)
      ∷ text "--ctx-size"
      ∷ decimal_ℤ p.context_len
      ∷ (if ltb_ℤ (pos 0) p.spec_n_max then text "--n-draft" ∷ decimal_ℤ p.spec_n_max ∷ [] else []);
}

unfoldable pub pid_path : Text → Text
unfolding text
pid_path name = text "/var/run/hivemind/" ++ (name ++ text ".pid")
