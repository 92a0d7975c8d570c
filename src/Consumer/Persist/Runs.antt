-- ===== src/Consumer/Persist/Runs.antt =====
-- A call of `persist` from the loop of `Start`, undisturbed (internal/gateway/consumer.go).
use mathlib.Core.Path.{subst}
use hive_mind_fusion.Prelude.{
  Text, Map, Bool, true, Option, none, some, ◌≡◌, refl, inl, inr, Bool-cases, if◌then◌else◌,
}
use hive_mind_fusion.Consumer.{ConsumerStats}
use hive_mind_fusion.Consumer.Persist.{
  Encode, Attempt, snapshot, write_and_rename, persist, waiting, snapped, made, wrote, finished,
  done, System, Reach, here, next, stop_seen, no_dir, some_dir, no_json, some_json, part,
  write_failed, write_done, rename_failed, rename_done,
}

Reach-Reach :
    (encode : Encode) (s t u : System) → Reach encode s t → Reach encode t u → Reach encode s u
Reach-Reach encode s t u r here = r
Reach-Reach encode s t u r (next {t = v} q st) = next (Reach-Reach encode s t v r q) st

module _ (encode : Encode) (a : Attempt) (s : System) (last : Bool) (m : Map ConsumerStats) where
  Reach-renamed :
      (content : Text) (t : System)
      → t.pc ≡ wrote last m content
      → Reach encode s t
      → t.disk.tmp ≡ some content
      → Reach encode s (record t {
        pc = done last;
        disk =
            if a.rename_ok
            then record { file = some content; tmp = none }
            else record t.disk { tmp = some content };
      })
  Reach-renamed content t at r e = elim (Bool-cases a.rename_ok) [
    | inl y ↦
        let new = next r (rename_done last m content at) in
        rw y (
          subst
            (λ f.
              Reach encode s (record t { pc = done last; disk = record { file = f; tmp = none } }))
            e new)
    | inr n ↦
        let new = next r (rename_failed last m content at) in
        rw n (
          subst
            (λ x. Reach encode s (record t { pc = done last; disk = record t.disk { tmp = x } })) e
            new)
  ]

  Reach-written :
      (e : Option Text) (t : System)
      → encode m ≡ e
      → t.pc ≡ made last m
      → Reach encode s t
      → Reach encode s (record t { pc = done last; disk = write_and_rename a e t.disk })
  Reach-written none t j at r = next r (no_json last m at j)
  Reach-written (some content) t j at r =
      let encoded = next r (some_json last m content at j) in
      elim (Bool-cases a.write_ok) [
        | inl y ↦ rw y (
            Reach-renamed content
              (record t { pc = wrote last m content; disk = record t.disk { tmp = some content } })
              refl (next encoded (write_done last m content refl)) refl)
        | inr n ↦ rw n (
            next (next encoded (part last m content a.broken refl))
              (write_failed last m content refl))
      ]

  Reach-persist :
      s.pc ≡ snapped last m
      → Reach encode s (record s { pc = done last; disk = persist encode a m s.disk })
  unfolding persist
  Reach-persist at = elim (Bool-cases a.mkdir_ok) [
    | inl y ↦ rw y (
        Reach-written (encode m) (record s { pc = made last m }) refl refl
          (next here (some_dir last m at)))
    | inr n ↦ rw n (next here (no_dir last m at))
  ]

-- With `Stop` called, the goroutine can make one more call of `persist`, on the counters of that moment, and leave. It
-- leaves the file as `persist` does, whatever the operating system makes of the call.
pub Reach-flush :
    (encode : Encode) (a : Attempt) (s : System)
    → s.stopped ≡ true
    → s.pc ≡ waiting
    → Reach encode s
        (record s { pc = finished; disk = persist encode a (snapshot s.tracker) s.disk })
Reach-flush encode a s stopped at =
    let t = record s { pc = snapped true (snapshot s.tracker) } in
    Reach-Reach encode s t
      (record s { pc = finished; disk = persist encode a (snapshot s.tracker) s.disk })
      (next here (stop_seen stopped at)) (Reach-persist encode a t true (snapshot s.tracker) refl)
