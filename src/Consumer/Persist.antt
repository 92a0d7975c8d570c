-- ===== src/Consumer/Persist.antt =====
-- The file of the usage counters (internal/gateway/consumer.go, `HandleUsage`, `Start`, `Stop`, `persist`). The ticker,
-- the requests and the call of `Stop` come in any order, one access at a time. The JSON encoder is an argument, with `none`
-- for its error.
pub mod Atomic
pub mod Runs
use hive_mind_fusion.Prelude.{
  ℕ, Text, Map, Bool, true, false, Option, none, some, if◌then◌else◌, ◌≡◌, refl,
}
use hive_mind_fusion.Consumer.{ConsumerStats, ConsumerTracker, record_usage}

abbrev pub Encode : Type 0
Encode = Map ConsumerStats → Option Text

-- The file at the save path, and the temporary one next to it.
pub record Disk : Type 0 where
  pub file : Option Text
  pub tmp : Option Text

-- What the operating system makes of one call of `persist`: a write that fails leaves the temporary file
-- with whatever it got.
pub record Attempt : Type 0 where
  pub mkdir_ok : Bool
  pub write_ok : Bool
  pub broken : Option Text
  pub rename_ok : Bool

-- The snapshot is the map itself, since its entries are values here.
abbrev pub snapshot : ConsumerTracker → Map ConsumerStats
snapshot ct = ct.stats

-- The body of GET /admin/usage.
unfoldable pub handle_usage : Encode → ConsumerTracker → Option Text
handle_usage encode ct = encode (snapshot ct)

abbrev pub write_and_rename : Attempt → Option Text → Disk → Disk
write_and_rename a none d = d
write_and_rename a (some content) d =
    if a.write_ok
    then (if a.rename_ok
        then record { file = some content; tmp = none }
        else record d { tmp = some content })
    else record d { tmp = a.broken }

-- `persist`, for the snapshot that it took.
unfoldable pub persist : Encode → Attempt → Map ConsumerStats → Disk → Disk
persist encode a stats d = if a.mkdir_ok then write_and_rename a (encode stats) d else d

-- Where the goroutine of `Start` stands, with its local variables; the flag says that the stop channel was seen closed.
pub data Pc : Type 0 where
  waiting : Pc
  snapped : Bool → Map ConsumerStats → Pc
  made : Bool → Map ConsumerStats → Pc
  writing : Bool → Map ConsumerStats → Text → Pc
  wrote : Bool → Map ConsumerStats → Text → Pc
  finished : Pc

-- Back to the `select`, or out of the goroutine.
abbrev pub done : Bool → Pc
done last = if last then finished else waiting

pub record System : Type 0 where
  pub tracker : ConsumerTracker
  pub disk : Disk
  pub pc : Pc
  pub stopped : Bool

-- One access: of a request, of `Stop`, or of the goroutine. A write goes through any contents of the temporary file.
pub data Step (encode : Encode) (s : System) : System → Type 0 where
  recorded :
      (now : ℕ) (consumer : Text) (prompt completion : ℕ)
      → Step encode s (record s { tracker = record_usage now consumer prompt completion s.tracker })
  stop : s.stopped ≡ false → Step encode s (record s { stopped = true })
  tick : s.pc ≡ waiting → Step encode s (record s { pc = snapped false (snapshot s.tracker) })
  stop_seen :
      s.stopped ≡ true
      → s.pc ≡ waiting
      → Step encode s (record s { pc = snapped true (snapshot s.tracker) })
  no_dir :
      (last : Bool) (m : Map ConsumerStats)
      → s.pc ≡ snapped last m
      → Step encode s (record s { pc = done last })
  some_dir :
      (last : Bool) (m : Map ConsumerStats)
      → s.pc ≡ snapped last m
      → Step encode s (record s { pc = made last m })
  no_json :
      (last : Bool) (m : Map ConsumerStats)
      → s.pc ≡ made last m
      → encode m ≡ none
      → Step encode s (record s { pc = done last })
  some_json :
      (last : Bool) (m : Map ConsumerStats) (content : Text)
      → s.pc ≡ made last m
      → encode m ≡ some content
      → Step encode s (record s { pc = writing last m content })
  part :
      (last : Bool) (m : Map ConsumerStats) (content : Text) (t : Option Text)
      → s.pc ≡ writing last m content
      → Step encode s (record s { disk = record s.disk { tmp = t } })
  write_failed :
      (last : Bool) (m : Map ConsumerStats) (content : Text)
      → s.pc ≡ writing last m content
      → Step encode s (record s { pc = done last })
  write_done :
      (last : Bool) (m : Map ConsumerStats) (content : Text)
      → s.pc ≡ writing last m content
      → Step encode s
          (record s { pc = wrote last m content; disk = record s.disk { tmp = some content } })
  rename_failed :
      (last : Bool) (m : Map ConsumerStats) (content : Text)
      → s.pc ≡ wrote last m content
      → Step encode s (record s { pc = done last })
  rename_done :
      (last : Bool) (m : Map ConsumerStats) (content : Text)
      → s.pc ≡ wrote last m content
      → Step encode s (record s { pc = done last; disk = record { file = s.disk.tmp; tmp = none } })

pub data Reach (encode : Encode) (s : System) : System → Type 0 where
  here : Reach encode s s
  next : {t u : System} → Reach encode s t → Step encode t u → Reach encode s u
