-- ===== src/Consumer/Persist/Atomic.antt =====
-- The usage file always holds one whole snapshot (internal/gateway/consumer.go, `persist`).
use mathlib.Core.Path.{subst}
use hive_mind_fusion.Prelude.{
  Text, Map, Bool, true, false, Option, some, ◌≡◌, ◌⊎◌, inl, inr, refl, sym, ap, ◌∙◌,
}
use hive_mind_fusion.Consumer.{ConsumerStats}
use hive_mind_fusion.Consumer.Persist.{
  Encode, Disk, Pc, waiting, snapped, made, writing, wrote, finished, done, System, Step, Reach,
  here, next, recorded, stop, tick, stop_seen, no_dir, some_dir, no_json, some_json, part,
  write_failed, write_done, rename_failed, rename_done,
}

module _ (encode : Encode) (init : System) where
  -- The tracker had these counters at a moment between the start and this state.
  abbrev pub Taken : Map ConsumerStats → System → Type 0
  Taken m s =
      (past : System) × Reach encode init past × Reach encode past s × (past.tracker.stats ≡ m)

  -- The file is the first one, or the whole of a snapshot.
  abbrev pub Whole : System → Option Text → Type 0
  Whole s file =
      (file ≡ init.disk.file)
      ⊎ ((m : Map ConsumerStats) × (content : Text) × Taken m s
          × (encode m ≡ some content)
          × (file ≡ some content))

  -- What the goroutine holds.
  abbrev Holds : Pc → System → Type 0
  Holds waiting s = Unit
  Holds finished s = Unit
  Holds (snapped last m) s = Taken m s
  Holds (made last m) s = Taken m s
  Holds (writing last m content) s = Taken m s × (encode m ≡ some content)
  Holds (wrote last m content) s =
      Taken m s × (encode m ≡ some content) × (s.disk.tmp ≡ some content)

  record Inv (s : System) : Type 0 where
    reached : Reach encode init s
    whole : Whole s s.disk.file
    holds : Holds s.pc s

  Taken-next : (m : Map ConsumerStats) (s t : System) → Step encode s t → Taken m s → Taken m t
  Taken-next m s t st (past, before, after, e) = (past, before, next after st, e)

  Whole-next : (s t : System) (file : Option Text) → Step encode s t → Whole s file → Whole t file
  Whole-next s t file st (inl e) = inl e
  Whole-next s t file st (inr (m, content, taken, e, is)) =
      inr (m, content, Taken-next m s t st taken, e, is)

  -- Steps of others leave what the goroutine holds.
  Holds-next :
      (pc : Pc) (s t : System) → Step encode s t → t.disk.tmp ≡ s.disk.tmp → Holds pc s → Holds pc t
  Holds-next waiting s t st e h = tt
  Holds-next finished s t st e h = tt
  Holds-next (snapped last m) s t st e h = Taken-next m s t st h
  Holds-next (made last m) s t st e h = Taken-next m s t st h
  Holds-next (writing last m content) s t st e (h, j) = (Taken-next m s t st h, j)
  Holds-next (wrote last m content) s t st e (h, j, k) = (Taken-next m s t st h, j, e ∙ k)

  Holds-done : (last : Bool) (s : System) → Holds (done last) s
  Holds-done true s = tt
  Holds-done false s = tt

  Inv-quiet : (s t : System) → Step encode s t → t.pc ≡ s.pc → t.disk ≡ s.disk → Inv s → Inv t
  Inv-quiet s t st same_pc same_disk i = record {
    reached = next i.reached st;
    whole =
        subst (Whole t) (sym (ap (λ (d : Disk). d.file) same_disk))
          (Whole-next s t s.disk.file st i.whole);
    holds =
        subst (λ p. Holds p t) (sym same_pc)
          (Holds-next s.pc s t st (ap (λ (d : Disk). d.tmp) same_disk) i.holds);
  }

  -- A step of the goroutine that leaves the file.
  Inv-moved :
      (s t : System) → Step encode s t → t.disk.file ≡ s.disk.file → Holds t.pc t → Inv s → Inv t
  Inv-moved s t st same_file h i = record {
    reached = next i.reached st;
    whole = subst (Whole t) (sym same_file) (Whole-next s t s.disk.file st i.whole);
    holds = h;
  }

  held : (s : System) (pc : Pc) → s.pc ≡ pc → Inv s → Holds pc s
  held s pc e i = subst (λ p. Holds p s) e i.holds

  Step-Inv : (s t : System) → Step encode s t → Inv s → Inv t
  Step-Inv s t (recorded now c p q) i = Inv-quiet s t (recorded now c p q) refl refl i
  Step-Inv s t (stop e) i = Inv-quiet s t (stop e) refl refl i
  Step-Inv s t (tick e) i = Inv-moved s t (tick e) refl (s, i.reached, next here (tick e), refl) i
  Step-Inv s t (stop_seen c e) i =
      Inv-moved s t (stop_seen c e) refl (s, i.reached, next here (stop_seen c e), refl) i
  Step-Inv s t (no_dir l m e) i = Inv-moved s t (no_dir l m e) refl (Holds-done l t) i
  Step-Inv s t (some_dir l m e) i =
      Inv-moved s t (some_dir l m e) refl
        (Taken-next m s t (some_dir l m e) (held s (snapped l m) e i)) i
  Step-Inv s t (no_json l m e j) i = Inv-moved s t (no_json l m e j) refl (Holds-done l t) i
  Step-Inv s t (some_json l m content e j) i =
      Inv-moved s t (some_json l m content e j) refl
        (Taken-next m s t (some_json l m content e j) (held s (made l m) e i), j) i
  Step-Inv s t (part l m content x e) i =
      let taken = (held s (writing l m content) e i).0 in
      let st = part l m content x e in
      Inv-moved s t st refl
        (subst (λ p. Holds p t) (sym e)
          (Taken-next m s t st taken, (held s (writing l m content) e i).1))
        i
  Step-Inv s t (write_failed l m content e) i =
      Inv-moved s t (write_failed l m content e) refl (Holds-done l t) i
  Step-Inv s t (write_done l m content e) i =
      let (taken, j) = held s (writing l m content) e i in
      let st = write_done l m content e in
      Inv-moved s t st refl (Taken-next m s t st taken, j, refl) i
  Step-Inv s t (rename_failed l m content e) i =
      Inv-moved s t (rename_failed l m content e) refl (Holds-done l t) i
  Step-Inv s t (rename_done l m content e) i =
      let (taken, j, k) = held s (wrote l m content) e i in
      let st = rename_done l m content e in
      record {
        reached = next i.reached st;
        whole = inr (m, content, Taken-next m s t st taken, j, k);
        holds = Holds-done l t;
      }

  Reach-Inv : (s : System) → init.pc ≡ waiting → Reach encode init s → Inv s
  Reach-Inv s at here = record { reached = here; whole = inl refl; holds = rw at tt }
  Reach-Inv s at (next {t} r st) = Step-Inv t s st (Reach-Inv t at r)

  -- From a state in which the goroutine waits, in every interleaving of requests, of `Stop` and of the goroutine's
  -- accesses, failures included: the usage file is the first one or the whole encoding of counters that the
  -- tracker had at one moment since. No reader finds a part of a snapshot or a mixture of two.
  pub Reach-Whole : (s : System) → init.pc ≡ waiting → Reach encode init s → Whole s s.disk.file
  Reach-Whole s at r = (Reach-Inv s at r).whole
