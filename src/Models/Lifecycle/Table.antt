-- ===== src/Models/Lifecycle/Table.antt =====
-- The PID files as an abstract table, and what the operations may do to it (internal/models/lifecycle.go).
use hive_mind_fusion.Prelude.{
  decimal_ℤ, Text, same, lookup, false, List, [], ◌∷◌, Option, none, some, ◌≡◌, ◌⊎◌,
}
use hive_mind_fusion.Models.Lifecycle.{
  Host, Os, LoadOptions, LoadError, pid_file_failed, LoadResult, loaded, refused, UnloadResult,
  unloaded, process_not_found, load, unload,
}

-- The content of the PID file of each name.
abbrev pub Table : Type 0
Table = Text → Option Text

abbrev pub table : Host → Table
table h name = lookup name h.pid_files

abbrev pub Same : Table → Table → Type 0
Same t u = (name : Text) → u name ≡ t name

-- Only the entry of this name may change.
abbrev pub Others : Text → Table → Table → Type 0
Others name t u = (other : Text) → same name other ≡ false → u other ≡ t other

pub data Op : Type 0 where
  loading : Text → LoadOptions → Op
  unloading : Text → Op

pub data Done : Type 0 where
  load_done : Text → LoadResult → Done
  unload_done : Text → UnloadResult → Done

abbrev pub MayRefuse : LoadError → Text → Table → Table → Type 0
MayRefuse pid_file_failed name t u = Others name t u
MayRefuse _ name t u = Same t u

abbrev pub MayUnload : UnloadResult → Text → Table → Table → Type 0
MayUnload (unloaded pid) name t u = Others name t u × ((u name ≡ none) ⊎ (u name ≡ t name))
MayUnload (process_not_found pid) name t u = Others name t u × ((u name ≡ none) ⊎ (u name ≡ t name))
MayUnload _ name t u = Same t u

-- What an operation with this result may do to the table.
abbrev pub May : Done → Table → Table → Type 0
May (load_done name (loaded pid)) t u = (u name ≡ some (decimal_ℤ pid)) × Others name t u
May (load_done name (refused e)) t u = MayRefuse e name t u
May (unload_done name r) t u = MayUnload r name t u

-- The tables that a sequence of results may lead to.
pub data Reaches : Table → List Done → Table → Type 0 where
  stop : (t : Table) → Reaches t [] t
  step :
      (t u v : Table) (d : Done) (ds : List Done)
      → May d t u
      → Reaches u ds v
      → Reaches t (d ∷ ds) v

abbrev pub apply_op : Os → Text → Op → Host → Host × Done
apply_op os dir (loading name opts) h =
    ((load os dir name opts h).0, load_done name (load os dir name opts h).1)
apply_op os dir (unloading name) h = ((unload os name h).0, unload_done name (unload os name h).1)

unfoldable pub run_ops : Os → Text → List Op → Host → Host
run_ops os dir [] h = h
run_ops os dir (op ∷ ops) h = run_ops os dir ops (apply_op os dir op h).0

unfoldable pub results_of : Os → Text → List Op → Host → List Done
results_of os dir [] h = []
results_of os dir (op ∷ ops) h =
    (apply_op os dir op h).1 ∷ results_of os dir ops (apply_op os dir op h).0
