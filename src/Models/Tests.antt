-- ===== src/Models/Tests.antt =====
-- A small host and a directory of models, and the theorems on them (internal/models).
use hive_mind_fusion.Prelude.{
  ℤ, pos, text, same, lookup, true, false, List, [], ◌∷◌, none, some, ◌≡◌, refl, arith, inl,
}
use hive_mind_fusion.Vram.{Format}
use hive_mind_fusion.Models.Scanner.{Files, Model, model_of, scan, not_found, find_by_name}
use hive_mind_fusion.Models.Lifecycle.{
  Host, Os, LoadOptions, load, estimate_for, running_pid, remove_pid, loaded, refused,
  already_loaded, swap, resolve_model_path, read_pid, list_running,
}
use hive_mind_fusion.Models.Lifecycle.Again.{load-load}
use hive_mind_fusion.Models.Lifecycle.Loading.{Loaded, load-Loaded}
use hive_mind_fusion.Models.Lifecycle.Table.{
  Op, loading, unloading, Reaches, table, results_of, run_ops,
}
use hive_mind_fusion.Models.Lifecycle.Refinement.{run_ops-Reaches}
use hive_mind_fusion.Models.Lifecycle.Swapping.{Has, swap-Unloaded}

abbrev no_digits : Format
no_digits z = []

-- The upper-case extension is listed, but stays in the name.
abbrev files : Files
files = record {
  read_dir =
      λ dir. some (record { name = text "Big.GGUF"; is_dir = false; info = some 1_048_576 } ∷ []);
  join_path = λ dir name. name;
  format = no_digits;
}

abbrev big : Model
big = model_of files (text "d") (text "Big.GGUF") 1_048_576

scan-big : scan files (text "d") ≡ some (big ∷ [])
unfolding scan text
scan-big = refl

find_by_name-listed : find_by_name files (text "d") (text "Big.GGUF") ≡ not_found
unfolding find_by_name text
find_by_name-listed = refl

-- The model "a" runs as process 7; the next process is 9.
abbrev host : Host
host = record { pid_files = (text "a", text "7") ∷ []; started = []; signalled = []; killed = [] }

abbrev os : Os
os = record {
  stat = λ path. some 1_048_576;
  find_process = λ pid. true;
  alive = λ h pid. true;
  signal_ok = λ h pid. true;
  mkdir_ok = λ h. true;
  start = λ h cmd. some (pos 9);
  write_ok = λ h name. true;
  after_failed_write = λ h name. h.pid_files;
  remove_ok = λ h name. true;
  read_dir = λ h. some (record { name = text "a.pid"; is_dir = false; info = none } ∷ []);
  join_path = λ dir name. name;
  format = no_digits;
}

abbrev options : LoadOptions
options = record { context_len = pos 0; spec_n_max = pos 0 }

load-Loaded_example :
    Loaded os
      (text "b")
      (resolve_model_path os (text "d") (text "b"))
      options
      host
      (load os (text "d") (text "b") options host)
load-Loaded_example = load-Loaded os (text "d") (text "b") options host

abbrev after_load : Host
after_load = (load os (text "d") (text "b") options host).0

load-loaded : load os (text "d") (text "b") options host ≡ (after_load, loaded (pos 9))
unfolding load text same estimate_for running_pid
load-loaded = refl

load-load_example :
    load os (text "d") (text "b") options after_load
    ≡ (after_load, refused (already_loaded (pos 9)))
load-load_example =
    load-load os (text "d") (text "b") options host after_load 9 load-loaded (omega arith)
      (omega arith) refl refl

abbrev after_swap : Host
after_swap = (swap os (text "d") (text "b") options host).0

swap-loaded : swap os (text "d") (text "b") options host ≡ (after_swap, loaded (pos 9))
unfolding swap text same estimate_for remove_pid
swap-loaded = refl

list_running-a : Has (text "a") (list_running os host)
unfolding list_running text same
list_running-a = inl refl

swap-Unloaded_example :
    (lookup (text "a") after_swap.pid_files ≡ none)
    × ((old : ℤ) × (read_pid host (text "a") ≡ some old) × Has old after_swap.signalled)
unfolding same text
swap-Unloaded_example =
    swap-Unloaded os (λ pid. refl) (λ h pid. refl) (λ h name. refl) (text "d") (text "b") options
      host after_swap (text "a") (pos 9) list_running-a swap-loaded refl

abbrev ops : List Op
ops = loading (text "b") options ∷ unloading (text "a") ∷ []

run_ops-Reaches_example :
    Reaches
      (table host)
      (results_of os (text "d") ops host)
      (table (run_ops os (text "d") ops host))
run_ops-Reaches_example = run_ops-Reaches os (λ h name other ne. refl) (text "d") ops host
