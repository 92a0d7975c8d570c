-- ===== src/Fusion/Outcome.antt =====
-- What a run of the fusion pipeline ends with (internal/fusion/fusion.go, internal/fusion/panels.go).
use hive_mind_fusion.Prelude.{
  ℕ, suc, ◌≤◌, pos, ◌≤ℤ◌, Text, text, false, List, [], ◌∷◌, none, some, map, length, length-keep,
  ◌≡◌, ◌≢◌, ◌↔◌, refl, ap, arith, replace_first, trim_space,
}
use hive_mind_fusion.Config.{FusionPanel}
use hive_mind_fusion.Fusion.{
  Message, BackendResponse, CallResult, deliberating, Caller, Panel, Engine, is_answer,
}
use hive_mind_fusion.Fusion.Transforms.{Spec}
use hive_mind_fusion.Fusion.Panels.{resolve_panel}
use hive_mind_fusion.Fusion.Stages.{
  Assets, extract_question, filter_valid, deliberate, fan_out, fan_out_from, ask, is_failed, braced,
  strip_fence, with_input,
}
use hive_mind_fusion.Fusion.Pipeline.{
  FusionResult, unknown_tier, crashed, no_quorum, completed, complete, stop, quorum_error,
  StreamResult, unknown_stream, stream_crashed, streamed, chunks_of, run_panel, run_fusion,
  stream_panel, run_fusion_stream,
}

-- The call of the deliberator.
abbrev pub deliberation : Assets → Caller → List Message → Text → CallResult
deliberation a call messages model = call deliberating model (
    record {
      role = text "user";
      content = replace_first (text "{input}") (extract_question messages) a.deliberator_prompt;
    }
    ∷ [])

module _ (a : Assets) (call : Caller) (spec : Spec) where
  pub length-fan_out_from :
      (i : ℕ) (ms : List Text) → length (fan_out_from a call spec i ms) ≡ length ms
  unfolding fan_out_from
  length-fan_out_from i [] = refl
  length-fan_out_from i (m ∷ ms) = ap suc (length-fan_out_from (suc i) ms)

  model-ask : (i : ℕ) (m : Text) → (ask a call spec i m).model ≡ m
  unfolding ask
  model-ask i m = ground arith

  models-fan_out_from :
      (i : ℕ) (ms : List Text)
      → map (λ (r : BackendResponse). r.model) (fan_out_from a call spec i ms) ≡ ms
  unfolding fan_out_from
  models-fan_out_from i [] = refl
  models-fan_out_from i (m ∷ ms) = cc (model-ask i m, models-fan_out_from (suc i) ms)

  -- The fan-out has one response for each panelist, in the panel's order and under the panelist's
  -- name, and at most as many valid ones.
  pub fan_out_lem :
      (panel : Panel)
      → (map (λ (r : BackendResponse). r.model) (fan_out a call panel spec) ≡ panel.panelists)
        × (length (fan_out a call panel spec) ≡ length panel.panelists)
        × (length (filter_valid (fan_out a call panel spec)) ≤ length panel.panelists)
  unfolding fan_out filter_valid
  fan_out_lem panel =
      let same_length = length-fan_out_from 0 panel.panelists in
      (
        models-fan_out_from 0 panel.panelists,
        same_length,
        omega (
          arith,
          same_length,
          length-keep is_answer (fan_out_from a call spec 0 panel.panelists),
        ),
      )

-- A panel with panelists whose configuration leaves the quorum open asks for at least one answer, and
-- for no more than it has panelists.
pub resolve_panel-quorum :
    (name : Text) (cp : FusionPanel)
    → cp.min_quorum ≡ pos 0
    → cp.panelists ≢ []
    → (pos 1 ≤ℤ (resolve_panel name cp).min_quorum)
      × ((resolve_panel name cp).min_quorum ≤ℤ pos (length (resolve_panel name cp).panelists))
unfolding resolve_panel
resolve_panel-quorum name cp h k = ground arith

-- What the stream sends where the plain run ends so.
abbrev pub stream_of : FusionResult → StreamResult
stream_of (unknown_tier t) = unknown_stream t
stream_of crashed = stream_crashed
stream_of (no_quorum v n q) = streamed (quorum_error v n q ∷ stop ∷ [])
stream_of (completed c) = streamed (chunks_of c.content)

module _ (a : Assets) (call : Caller) (e : Engine) (tier : Text) (messages : List Message) where
  -- The stream and the plain run agree for the same calls: on the tier, on a panic, on the quorum
  -- with its numbers, and on the content, which is streamed word by word and closed by a stop.
  pub run_fusion_stream-agrees :
      run_fusion_stream a call e tier messages ≡ stream_of (run_fusion a call e tier messages)
  unfolding run_fusion run_panel run_fusion_stream stream_panel complete
  run_fusion_stream-agrees = ground arith

-- Deliberation ends in a panic exactly when the deliberator's call succeeds with some content whose
-- extracted JSON is decoded without an error to a nil map, as "null" is.
pub deliberate-eq-none_iff :
    (a : Assets) (call : Caller) (messages : List Message) (model : Text)
    → (deliberate a call messages model ≡ none) ↔ (
        (is_failed (deliberation a call messages model) ≡ false)
        × ((deliberation a call messages model).response.content ≢ [])
        × (a.decode_object (
              braced
                (strip_fence (trim_space (deliberation a call messages model).response.content)))
            ≡ some none))
unfolding deliberate with_input
deliberate-eq-none_iff a call messages model = ground arith
