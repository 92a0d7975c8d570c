-- ===== src/Models/Lifecycle/Loading.antt =====
-- What a load leaves behind (internal/models/lifecycle.go, `Load`).
use hive_mind_fusion.Prelude.{
  ℕ, ℤ, decimal_ℤ, Text, same, lookup, lookup-insert, lookup-insert_self, true, false, ◌∷◌, Option,
  none, some, ◌≡◌, refl, ◌∙◌, ◌⊎◌, inl, inr, Bool-cases,
}
use hive_mind_fusion.Models.Launcher.{Command}
use hive_mind_fusion.Models.Lifecycle.{
  Host, Os, LoadOptions, LoadResult, loaded, refused, resolve_model_path, running_pid, record_pid,
  after_start, start_server, command_of, estimate_for, load_file, load,
}

-- A process was started with this command under the PID in the file, and nothing else changed.
abbrev pub Recorded : Host → Host → Text → ℤ → Command → Type 0
Recorded h now name pid cmd =
    (now.started ≡ (pid, cmd) ∷ h.started)
    × (now.signalled ≡ h.signalled)
    × (now.killed ≡ h.killed)
    × (lookup name now.pid_files ≡ some (decimal_ℤ pid))
    × ((other : Text)
        → same name other ≡ false
        → lookup other now.pid_files ≡ lookup other h.pid_files)

-- The one process that was started was killed.
abbrev pub Undone : Host → Host → Type 0
Undone h now =
    (pid : ℤ) × (cmd : Command) × (now.started ≡ (pid, cmd) ∷ h.started)
    × (now.killed ≡ pid ∷ h.killed)

abbrev pub Started : Os → Text → Command → Host → Host × LoadResult → Type 0
Started os name cmd h (now, loaded pid) = Recorded h now name pid cmd
Started os name cmd h (now, refused e) = (now ≡ h) ⊎ Undone h now

Started-record_pid :
    (os : Os) (name : Text) (pid : ℤ) (cmd : Command) (h : Host)
    → Started os name cmd h (record_pid os name pid cmd h)
Started-record_pid os name pid cmd h =
    let now = record h { started = (pid, cmd) ∷ h.started } in
    elim (Bool-cases (os.write_ok now name)) [
      | inl y ↦ rw y (
        refl,
        refl,
        refl,
        lookup-insert_self name (decimal_ℤ pid) h.pid_files,
        λ other ne. lookup-insert name other (decimal_ℤ pid) h.pid_files ∙ rw ne refl,
      )
      | inr n ↦ rw n (inr (pid, cmd, refl, refl))
    ]

Started-after_start :
    (os : Os) (name : Text) (cmd : Command) (h : Host) (o : Option ℤ)
    → Started os name cmd h (after_start os name cmd h o)
Started-after_start os name cmd h none = inl refl
Started-after_start os name cmd h (some pid) = Started-record_pid os name pid cmd h

Started-start_server :
    (os : Os) (name : Text) (cmd : Command) (h : Host) (o : Option ℤ)
    → Started os name cmd h (start_server os name cmd h o)
Started-start_server os name cmd h (some pid) = inl refl
Started-start_server os name cmd h none = elim (Bool-cases (os.mkdir_ok h)) [
  | inl y ↦ rw y (Started-after_start os name cmd h (os.start h cmd))
  | inr n ↦ rw n (inl refl)
]

-- What a load of the model file at a path did.
abbrev pub Loaded : Os → Text → Text → LoadOptions → Host → Host × LoadResult → Type 0
Loaded os name path opts h (now, loaded pid) =
    (size : ℕ) × (os.stat path ≡ some size)
    × ((estimate_for os opts size).fits_in_24gb ≡ true)
    × (running_pid os h name ≡ none)
    × Recorded h now name pid (command_of path opts)
Loaded os name path opts h (now, refused e) = (now ≡ h) ⊎ Undone h now

Loaded-Started :
    (os : Os) (name path : Text) (opts : LoadOptions) (h : Host) (size : ℕ)
    (after : Host × LoadResult)
    → os.stat path ≡ some size
    → (estimate_for os opts size).fits_in_24gb ≡ true
    → running_pid os h name ≡ none
    → Started os name (command_of path opts) h after
    → Loaded os name path opts h after
Loaded-Started os name path opts h size (now, loaded pid) there fits idle done =
    (size, there, fits, idle, done)
Loaded-Started os name path opts h size (now, refused e) there fits idle done = done

Loaded-start_server :
    (os : Os) (name path : Text) (opts : LoadOptions) (h : Host) (size : ℕ) (o : Option ℤ)
    → os.stat path ≡ some size
    → (estimate_for os opts size).fits_in_24gb ≡ true
    → running_pid os h name ≡ o
    → Loaded os name path opts h (start_server os name (command_of path opts) h o)
Loaded-start_server os name path opts h size (some pid) there fits idle = inl refl
Loaded-start_server os name path opts h size none there fits idle =
    Loaded-Started os name path opts h size (start_server os name (command_of path opts) h none)
      there fits idle (Started-start_server os name (command_of path opts) h none)

Loaded-load_file :
    (os : Os) (name path : Text) (opts : LoadOptions) (h : Host) (o : Option ℕ)
    → os.stat path ≡ o
    → Loaded os name path opts h (load_file os name path opts h o)
Loaded-load_file os name path opts h none there = inl refl
Loaded-load_file os name path opts h (some size) there =
    elim (Bool-cases (estimate_for os opts size).fits_in_24gb) [
      | inl y ↦
          rw y (Loaded-start_server os name path opts h size (running_pid os h name) there y refl)
      | inr n ↦ rw n (inl refl)
    ]

-- For each directory, name and state: a load that succeeds found the model file at its resolved path, with
-- an estimate that fits, and no running process under the name; it started one process, with the command for that path and the
-- options, and recorded its PID under the name, and under no other name did a PID file change. A load that fails left the
-- state as it was, or killed the one process that it had started.
pub load-Loaded :
    (os : Os) (dir name : Text) (opts : LoadOptions) (h : Host)
    → Loaded os name (resolve_model_path os dir name) opts h (load os dir name opts h)
unfolding load
load-Loaded os dir name opts h =
    let path = resolve_model_path os dir name in
    Loaded-load_file os name path opts h (os.stat path) refl
