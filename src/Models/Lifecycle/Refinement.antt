-- ===== src/Models/Lifecycle/Refinement.antt =====
-- The operations refine the table of PID files (internal/models/lifecycle.go).
use hive_mind_fusion.Prelude.{
  ℕ, ℤ, decimal_ℤ, Text, same, lookup, lookup-insert, lookup-insert_self, lookup-keep_keys, false,
  not, List, [], ◌∷◌, ◌++◌, Option, none, some, map, ◌≡◌, refl, sym, ◌∙◌, ◌⊎◌, inl, inr, Bool-cases,
  same_refl,
}
use hive_mind_fusion.Models.Launcher.{Command}
use hive_mind_fusion.Models.Lifecycle.{
  Host, Os, LoadOptions, LoadResult, load, load_file, start_server, after_start, record_pid,
  command_of, estimate_for, running_pid, resolve_model_path, unload, unload_pid, remove_pid,
  read_pid, unload_all, list_running, swap,
}
use hive_mind_fusion.Models.Lifecycle.Swapping.{same-flip}
use hive_mind_fusion.Models.Lifecycle.Table.{
  table, Others, Op, loading, unloading, load_done, unload_done, May, Reaches, stop, step, apply_op,
  run_ops, results_of,
}

-- A write that fails leaves the other files alone.
module _ (os : Os)
    (own_file : (h : Host) (name other : Text)
      → same name other ≡ false
      → lookup other (os.after_failed_write h name) ≡ lookup other h.pid_files) where
  abbrev Steps : Text → Host → Host × LoadResult → Type 0
  Steps name h after = May (load_done name after.1) (table h) (table after.0)

  record_pid-Steps :
      (name : Text) (pid : ℤ) (cmd : Command) (h : Host)
      → Steps name h (record_pid os name pid cmd h)
  record_pid-Steps name pid cmd h =
      let now = record h { started = (pid, cmd) ∷ h.started } in
      elim (Bool-cases (os.write_ok now name)) [
        | inl y ↦ rw y (
          lookup-insert_self name (decimal_ℤ pid) h.pid_files,
          λ other ne. lookup-insert name other (decimal_ℤ pid) h.pid_files ∙ rw ne refl,
        )
        | inr n ↦ rw n (own_file now name)
      ]

  after_start-Steps :
      (name : Text) (cmd : Command) (h : Host) (o : Option ℤ)
      → Steps name h (after_start os name cmd h o)
  after_start-Steps name cmd h none = λ other. refl
  after_start-Steps name cmd h (some pid) = record_pid-Steps name pid cmd h

  start_server-Steps :
      (name : Text) (cmd : Command) (h : Host) (o : Option ℤ)
      → Steps name h (start_server os name cmd h o)
  start_server-Steps name cmd h (some pid) = λ other. refl
  start_server-Steps name cmd h none = elim (Bool-cases (os.mkdir_ok h)) [
    | inl y ↦ rw y (after_start-Steps name cmd h (os.start h cmd))
    | inr n ↦ rw n (λ other. refl)
  ]

  load_file-Steps :
      (name path : Text) (opts : LoadOptions) (h : Host) (o : Option ℕ)
      → Steps name h (load_file os name path opts h o)
  load_file-Steps name path opts h none = λ other. refl
  load_file-Steps name path opts h (some size) =
      elim (Bool-cases (estimate_for os opts size).fits_in_24gb) [
        | inl y ↦ rw y (start_server-Steps name (command_of path opts) h (running_pid os h name))
        | inr n ↦ rw n (λ other. refl)
      ]

  load-Steps :
      (dir name : Text) (opts : LoadOptions) (h : Host) → Steps name h (load os dir name opts h)
  unfolding load
  load-Steps dir name opts h =
      let path = resolve_model_path os dir name in load_file-Steps name path opts h (os.stat path)

  abbrev Removed : Text → Host → Host → Type 0
  Removed name h now =
      Others name (table h) (table now)
      × ((table now name ≡ none) ⊎ (table now name ≡ table h name))

  remove_pid-Removed : (name : Text) (h : Host) → Removed name h (remove_pid os name h)
  unfolding remove_pid
  remove_pid-Removed name h = elim (Bool-cases (os.remove_ok h name)) [
    | inr n ↦ rw n (λ other ne. refl, inr refl)
    | inl y ↦ rw y (
      λ other ne.
          lookup-keep_keys (λ k. not (same k name)) other h.pid_files
          ∙ rw (same-flip name other ne) refl,
      inl (lookup-keep_keys (λ k. not (same k name)) name h.pid_files ∙ rw (same_refl name) refl),
    )
  ]

  unload_pid-May :
      (name : Text) (h : Host) (o : Option ℤ)
      → May
          (unload_done name (unload_pid os name h o).1)
          (table h)
          (table (unload_pid os name h o).0)
  unload_pid-May name h none = λ other. refl
  unload_pid-May name h (some pid) = elim (Bool-cases (os.find_process pid)) [
    | inr n ↦ rw n (remove_pid-Removed name h)
    | inl y ↦ rw y (elim (Bool-cases (os.signal_ok h pid)) [
      | inr m ↦ rw m (λ other. refl)
      | inl z ↦ rw z (remove_pid-Removed name (record h { signalled = pid ∷ h.signalled }))
    ])
  ]

  apply_op-May :
      (dir : Text) (op : Op) (h : Host)
      → May (apply_op os dir op h).1 (table h) (table (apply_op os dir op h).0)
  unfolding unload
  apply_op-May dir (loading name opts) h = load-Steps dir name opts h
  apply_op-May dir (unloading name) h = unload_pid-May name h (read_pid h name)

  -- For each sequence of loads and unloads, when a PID file that cannot be written leaves the others alone: the table of PID files
  -- goes through the steps that their results allow. A load that succeeds sets the entry of its name, one that fails
  -- changes no other entry, and none at all unless the file could not be written; an unload removes the entry of its name or leaves it.
  pub run_ops-Reaches :
      (dir : Text) (ops : List Op) (h : Host)
      → Reaches (table h) (results_of os dir ops h) (table (run_ops os dir ops h))
  unfolding run_ops results_of
  run_ops-Reaches dir [] h = stop (table h)
  run_ops-Reaches dir (op ∷ ops) h =
      let now = (apply_op os dir op h).0 in
      step (table h) (table now) (table (run_ops os dir ops now)) (apply_op os dir op h).1
        (results_of os dir ops now) (apply_op-May dir op h) (run_ops-Reaches dir ops now)

-- A swap is the unloads of the running models, then a load.
unload_all-run_ops :
    (os : Os) (dir : Text) (names : List Text) (ops : List Op) (h : Host)
    → run_ops os dir (map unloading names ++ ops) h ≡ run_ops os dir ops (unload_all os names h)
unfolding run_ops unload_all
unload_all-run_ops os dir [] ops h = refl
unload_all-run_ops os dir (n ∷ ns) ops h = unload_all-run_ops os dir ns ops (unload os n h).0

pub swap-run_ops :
    (os : Os) (dir name : Text) (opts : LoadOptions) (h : Host)
    → (swap os dir name opts h).0
      ≡ run_ops os dir (map unloading (list_running os h) ++ loading name opts ∷ []) h
unfolding swap run_ops
swap-run_ops os dir name opts h =
    sym (unload_all-run_ops os dir (list_running os h) (loading name opts ∷ []) h)
