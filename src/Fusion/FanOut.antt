-- ===== src/Fusion/FanOut.antt =====
-- The goroutines of `fanOut` (internal/fusion/fusion.go): each writes the result of its panelist to its
-- own place of the slice, in whatever order the calls come back.
use hive_mind_fusion.Prelude.{
  ℕ, zero, suc, ◌+◌, ◌<◌, ◌==◌, Text, Bool, true, false, ◌||◌, List, [], ◌∷◌, Option, none, some,
  if◌then◌else◌, ◌≡◌, refl, sym, ◌∙◌, arith, length, get_elem?, get_elem?-lt, set, length-set,
  eq_of_get_elem?, replicate, length-replicate, Bool-cases, inl, inr, ◌≢◌, ==_iff, get_elem?-set,
}
use native.Mathlib.Nat.{add-zero, add-suc, suc-add, zero-add}
use hive_mind_fusion.Fusion.{BackendResponse, Caller, Panel}
use hive_mind_fusion.Fusion.Transforms.{Spec}
use hive_mind_fusion.Fusion.Stages.{Assets, ask, fan_out, fan_out_from}
use hive_mind_fusion.Fusion.Outcome.{length-fan_out_from}

-- The zero value that `make` puts into the slice.
abbrev pub blank : BackendResponse
blank = record { model = []; content = []; tokens = 0; latency_ms = 0; error = [] }

-- `i` is among the indices.
abbrev pub listed : ℕ → List ℕ → Bool
listed i [] = false
listed i (j ∷ js) = j == i || listed i js

module _ (a : Assets) (call : Caller) (spec : Spec) (panelists : List Text) where
  abbrev pub write_result : List BackendResponse → ℕ → Option Text → List BackendResponse
  write_result results i none = results
  write_result results i (some m) = set results i (ask a call spec i m)

  -- The calls come back in this order.
  unfoldable pub collect : List BackendResponse → List ℕ → List BackendResponse
  collect results [] = results
  collect results (i ∷ order) = collect (write_result results i (get_elem? panelists i)) order

  length-write_result :
      (results : List BackendResponse) (i : ℕ) (o : Option Text)
      → length (write_result results i o) ≡ length results
  length-write_result results i none = refl
  length-write_result results i (some m) = length-set results i (ask a call spec i m)

  abbrev asked : ℕ → Option Text → Option BackendResponse
  asked i none = none
  asked i (some m) = some (ask a call spec i m)

  length-collect :
      (results : List BackendResponse) (order : List ℕ)
      → length (collect results order) ≡ length results
  unfolding collect
  length-collect results [] = refl
  length-collect results (i ∷ order) =
      length-collect (write_result results i (get_elem? panelists i)) order
      ∙ length-write_result results i (get_elem? panelists i)

  get_elem?-fan_out_from :
      (k i : ℕ) (ms : List Text)
      → get_elem? (fan_out_from a call spec k ms) i ≡ asked (k + i) (get_elem? ms i)
  unfolding fan_out_from
  get_elem?-fan_out_from k i [] = refl
  get_elem?-fan_out_from k zero (m ∷ ms) = rw add-zero
  get_elem?-fan_out_from k (suc i) (m ∷ ms) =
      rw (add-suc, ← suc-add) (get_elem?-fan_out_from (suc k) i ms)

  get_elem?-write_result :
      (results : List BackendResponse) (i j : ℕ) (o : Option Text) (m : Text)
      → get_elem? panelists i ≡ o
      → j < length results
      → get_elem? panelists j ≡ some m
      → get_elem? (write_result results i o) j
        ≡ (if i == j then some (ask a call spec j m) else get_elem? results j)
  get_elem?-write_result results i j none m f h e =
      let apart : i ≢ j = λ p. cc (rw p at f, e) in ground (arith, apart)
  get_elem?-write_result results i j (some k) m f h e = elim (Bool-cases (i == j)) [
    | inl y ↦
        let p : i ≡ j = (==_iff i j).0 y in
        let same_model : k ≡ m = cc (rw p at f, e) in
        get_elem?-set results i j (ask a call spec i k) h ∙ rw (y, p, same_model) refl
    | inr n ↦ get_elem?-set results i j (ask a call spec i k) h ∙ rw n refl
  ]

  get_elem?-collect :
      (results : List BackendResponse) (order : List ℕ) (j : ℕ) (m : Text)
      → j < length results
      → get_elem? panelists j ≡ some m
      → get_elem? (collect results order) j
        ≡ (if listed j order then some (ask a call spec j m) else get_elem? results j)
  unfolding collect
  get_elem?-collect results [] j m h e = refl
  get_elem?-collect results (i ∷ order) j m h e =
      let results' = write_result results i (get_elem? panelists i) in
      let h' : j < length results' =
        omega (arith, length-write_result results i (get_elem? panelists i)) in
      get_elem?-collect results' order j m h' e
      ∙ ground (arith, get_elem?-write_result results i j (get_elem? panelists i) m refl h e)

-- Whatever the order in which the calls come back, if each comes back the slice ends as the list of
-- the panelists' results in the panel's order.
pub collect-fan_out :
    (a : Assets) (call : Caller) (spec : Spec) (panel : Panel) (order : List ℕ)
    → ((i : ℕ) → i < length panel.panelists → listed i order ≡ true)
    → collect a call spec panel.panelists (replicate (length panel.panelists) blank) order
      ≡ fan_out a call panel spec
unfolding fan_out
collect-fan_out a call spec panel order all =
    let n = length panel.panelists in
    let start = replicate n blank in
    let size : length (collect a call spec panel.panelists start order) ≡ n =
      length-collect a call spec panel.panelists start order ∙ length-replicate n blank in
    eq_of_get_elem? (collect a call spec panel.panelists start order)
      (fan_out_from a call spec 0 panel.panelists)
      (size ∙ sym (length-fan_out_from a call spec 0 panel.panelists))
      λ i lt.
        let within : i < n = rw size at lt in
        let (m, found) = get_elem?-lt panel.panelists i within in
        get_elem?-collect a call spec panel.panelists start order i m
          (omega (arith, within, length-replicate n blank)) found
        ∙ rw (all i within) (
            sym (
              get_elem?-fan_out_from a call spec panel.panelists 0 i panel.panelists
              ∙ rw (found, zero-add)))
