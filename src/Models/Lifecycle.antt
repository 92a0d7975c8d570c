-- ===== src/Models/Lifecycle.antt =====
-- Loading, unloading and swapping models (internal/models/lifecycle.go). The state is the PID files by model name
-- with the processes started, signalled and killed so far, the latest first; the operating system is an argument. The quantization tag
-- that `Load` passes to `Estimate` has no effect there and is left out.
pub mod Loading
pub mod Again
pub mod Swapping
pub mod Table
pub mod Refinement
use hive_mind_fusion.Prelude.{
  parse_int, ℕ, ℤ, pos, ltb_ℤ, is_zero, decimal_ℤ, Text, text, same, has_prefix, mem_byte, Map,
  lookup, insert, keep_keys, trim_space, Bool, false, not, ◌&&◌, ◌||◌, List, [], ◌∷◌, ◌++◌, Option,
  none, some, if◌then◌else◌, length, take, ltb, ◌-◌,
}
use hive_mind_fusion.Vram.{kv_f16, Format, Result, estimate}
use hive_mind_fusion.Models.Scanner.{DirEntry, has_suffix, mib_of}
use hive_mind_fusion.Models.Launcher.{Command, LaunchParams, build_command}

pub record Host : Type 0 where
  pub pid_files : Map Text
  pub started : List (ℤ × Command)
  pub signalled : List ℤ
  pub killed : List ℤ

-- `alive` is the null signal, `signal_ok` a SIGTERM that is delivered or meets a process that has ended; `read_dir` lists the
-- directory of the PID files.
pub record Os : Type 0 where
  pub stat : Text → Option ℕ
  pub find_process : ℤ → Bool
  pub alive : Host → ℤ → Bool
  pub signal_ok : Host → ℤ → Bool
  pub mkdir_ok : Host → Bool
  pub start : Host → Command → Option ℤ
  pub write_ok : Host → Text → Bool
  pub after_failed_write : Host → Text → Map Text
  pub remove_ok : Host → Text → Bool
  pub read_dir : Host → Option (List DirEntry)
  pub join_path : Text → Text → Text
  pub format : Format

pub record LoadOptions : Type 0 where
  pub context_len : ℤ
  pub spec_n_max : ℤ

pub data LoadError : Type 0 where
  model_not_found : Text → LoadError
  vram_check_failed : Text → LoadError
  already_loaded : ℤ → LoadError
  pid_dir_failed : LoadError
  start_failed : LoadError
  pid_file_failed : LoadError

pub data LoadResult : Type 0 where
  loaded : ℤ → LoadResult
  refused : LoadError → LoadResult

-- Whether `filepath.Ext` gives more than "": a dot in the last element of the path.
unfoldable pub has_ext : Bool → Text → Bool
unfolding text
has_ext seen [] = seen
has_ext seen (c ∷ s) = has_ext (not (mem_byte c (text "/")) && (seen || mem_byte c (text "."))) s

unfoldable pub resolve_model_path : Os → Text → Text → Text
unfolding has_ext text
resolve_model_path os dir name =
    os.join_path dir (if has_ext false name then name else name ++ text ".gguf")

abbrev pub pid_in : Option Text → Option ℤ
pid_in none = none
pid_in (some content) = parse_int (trim_space content)

-- `readPID`, `none` for its errors.
unfoldable pub read_pid : Host → Text → Option ℤ
unfolding parse_int trim_space lookup
read_pid h name = pid_in (lookup name h.pid_files)

abbrev pub is_running : Os → Host → ℤ → Bool
is_running os h pid = os.find_process pid && os.alive h pid

-- The process of a PID file, if it runs.
abbrev pub running_of : Os → Host → Option ℤ → Option ℤ
running_of os h none = none
running_of os h (some pid) = if ltb_ℤ (pos 0) pid && is_running os h pid then some pid else none

unfoldable pub running_pid : Os → Host → Text → Option ℤ
unfolding read_pid
running_pid os h name = running_of os h (read_pid h name)

abbrev pub record_pid : Os → Text → ℤ → Command → Host → Host × LoadResult
record_pid os name pid cmd h =
    let now = record h { started = (pid, cmd) ∷ h.started } in
    if os.write_ok now name
    then (record now { pid_files = insert name (decimal_ℤ pid) now.pid_files }, loaded pid)
    else (
      record now { pid_files = os.after_failed_write now name; killed = pid ∷ now.killed },
      refused pid_file_failed,
    )

abbrev pub after_start : Os → Text → Command → Host → Option ℤ → Host × LoadResult
after_start os name cmd h none = (h, refused start_failed)
after_start os name cmd h (some pid) = record_pid os name pid cmd h

abbrev pub start_server : Os → Text → Command → Host → Option ℤ → Host × LoadResult
start_server os name cmd h (some pid) = (h, refused (already_loaded pid))
start_server os name cmd h none =
    if os.mkdir_ok h
    then after_start os name cmd h (os.start h cmd)
    else (h, refused pid_dir_failed)

abbrev pub context_of : LoadOptions → ℤ
context_of opts = if is_zero opts.context_len then pos 4096 else opts.context_len

abbrev pub command_of : Text → LoadOptions → Command
command_of path opts = build_command (record {
  model_path = path;
  context_len = context_of opts;
  spec_n_max = opts.spec_n_max;
  port = pos 0;
  host = [];
})

unfoldable pub estimate_for : Os → LoadOptions → ℕ → Result
unfolding estimate
estimate_for os opts size =
    estimate os.format (pos (mib_of size)) (context_of opts) kv_f16 opts.spec_n_max

abbrev pub load_file : Os → Text → Text → LoadOptions → Host → Option ℕ → Host × LoadResult
load_file os name path opts h none = (h, refused (model_not_found path))
load_file os name path opts h (some size) =
    let need = estimate_for os opts size in
    if need.fits_in_24gb
    then start_server os name (command_of path opts) h (running_pid os h name)
    else (h, refused (vram_check_failed need.details))

-- `Load` for a configured directory of models.
unfoldable pub load : Os → Text → Text → LoadOptions → Host → Host × LoadResult
unfolding resolve_model_path
load os dir name opts h =
    let path = resolve_model_path os dir name in load_file os name path opts h (os.stat path)

pub data UnloadResult : Type 0 where
  unloaded : ℤ → UnloadResult
  not_loaded : UnloadResult
  process_not_found : ℤ → UnloadResult
  signal_failed : ℤ → UnloadResult

-- `removePID`; a removal that fails is not reported by the callers.
unfoldable pub remove_pid : Os → Text → Host → Host
unfolding keep_keys same
remove_pid os name h =
    if os.remove_ok h name
    then record h { pid_files = keep_keys (λ k. not (same k name)) h.pid_files }
    else h

abbrev pub unload_pid : Os → Text → Host → Option ℤ → Host × UnloadResult
unload_pid os name h none = (h, not_loaded)
unload_pid os name h (some pid) =
    let now = record h { signalled = pid ∷ h.signalled } in
    if os.find_process pid
    then (if os.signal_ok h pid
        then (remove_pid os name now, unloaded pid)
        else (h, signal_failed pid))
    else (remove_pid os name h, process_not_found pid)

unfoldable pub unload : Os → Text → Host → Host × UnloadResult
unfolding read_pid
unload os name h = unload_pid os name h (read_pid h name)

-- `n[:len(n)-4]` of a file name.
abbrev pub stem : Text → Text
stem n = take (length n - 4) n

abbrev pub add_if_running : Text → Option ℤ → List Text → List Text
add_if_running name none names = names
add_if_running name (some pid) names = name ∷ names

unfoldable pub running_names : Os → Host → List DirEntry → List Text
unfolding running_pid has_suffix text
running_names os h [] = []
running_names os h (e ∷ es) =
    let rest = running_names os h es in
    if e.is_dir
    then rest
    else if ltb 4 (length e.name) && has_suffix (text ".pid") e.name
    then add_if_running (stem e.name) (running_pid os h (stem e.name)) rest
    else rest

abbrev pub names_in : Os → Host → Option (List DirEntry) → List Text
names_in os h none = []
names_in os h (some es) = running_names os h es

-- `ListRunning`, with no names for its error, as `Swap` reads it.
unfoldable pub list_running : Os → Host → List Text
unfolding running_names
list_running os h = names_in os h (os.read_dir h)

unfoldable pub unload_all : Os → List Text → Host → Host
unfolding unload
unload_all os [] h = h
unload_all os (name ∷ names) h = unload_all os names (unload os name h).0

unfoldable pub swap : Os → Text → Text → LoadOptions → Host → Host × LoadResult
unfolding unload_all list_running load
swap os dir name opts h = load os dir name opts (unload_all os (list_running os h) h)
