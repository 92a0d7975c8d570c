-- ===== src/Fusion/Pipeline.antt =====
-- The whole pipeline (internal/fusion/fusion.go): `RunFusion` and `RunFusionStream`. The time stamps,
-- the completion's id and the log are left out.
use hive_mind_fusion.Prelude.{
  ℕ, ◌+◌, ◌/◌, ◌%◌, ◌^◌, ℤ, pos, ltb_ℤ, Text, lookup, List, [], ◌∷◌, ◌++◌, none, some,
  if◌then◌else◌, map, length, fields,
}
use hive_mind_fusion.Fusion.{Message, BackendResponse, Caller, Panel, Engine}
use hive_mind_fusion.Fusion.Transforms.{Spec}
use hive_mind_fusion.Fusion.Stages.{
  Assets, extract_question, filter_valid, deliberate, fan_out, run_judge, synthesize,
}

-- The parts of the response that depend on the run.
pub record Completion : Type 0 where
  pub tier : Text
  pub content : Text
  pub prompt_tokens : ℕ
  pub completion_tokens : ℕ
  pub total_tokens : ℕ
  pub judge : Text
  pub synth : Text

pub data FusionResult : Type 0 where
  unknown_tier : Text → FusionResult
  crashed : FusionResult
  no_quorum : (valid asked : ℕ) → (needed : ℤ) → FusionResult
  completed : Completion → FusionResult

abbrev pub add_int : ℕ → ℕ → ℕ
add_int a b = (a + b) % 2 ^ 64

unfoldable pub total_tokens : ℕ → List BackendResponse → ℕ
total_tokens acc [] = acc
total_tokens acc (r ∷ rs) = total_tokens (add_int acc r.tokens) rs

unfoldable pub complete : Text → Panel → List BackendResponse → Text → Completion
complete tier panel responses content =
    let prompt = total_tokens 0 responses in
    let completion = length content / 4 in
    record {
      tier = tier;
      content = content;
      prompt_tokens = prompt;
      completion_tokens = completion;
      total_tokens = add_int prompt completion;
      judge = panel.judge;
      synth = panel.synth;
    }

-- A delta of the stream: some content, or the final one.
pub data StreamChunk : Type 0 where
  delta : Text → StreamChunk
  stop : StreamChunk
  -- The message about the missing quorum, with its three numbers.
  quorum_error : (valid asked : ℕ) → (needed : ℤ) → StreamChunk

pub data StreamResult : Type 0 where
  unknown_stream : Text → StreamResult
  stream_crashed : StreamResult
  streamed : List StreamChunk → StreamResult

-- Each word is sent with a space behind it.
unfoldable pub word_chunk : Text → StreamChunk
word_chunk word = delta (word ++ 32 ∷ [])

unfoldable pub chunks_of : Text → List StreamChunk
unfolding word_chunk
chunks_of content = map word_chunk (fields content) ++ stop ∷ []

module _ (a : Assets) (call : Caller) where
  -- The judge and the synthesizer, on the valid responses.
  unfoldable pub conclude : Text → List BackendResponse → Panel → Text
  conclude question valid panel =
      let analysis = (run_judge a call question valid panel.judge).0 in
      synthesize a call question valid analysis panel.synth

  unfoldable pub run_panel : Text → Panel → List Message → Spec → FusionResult
  run_panel tier panel messages spec =
      let responses = fan_out a call panel spec in
      let valid = filter_valid responses in
      if ltb_ℤ (pos (length valid)) panel.min_quorum
      then no_quorum (length valid) (length responses) panel.min_quorum
      else completed
          (complete tier panel responses (conclude (extract_question messages) valid panel))

  unfoldable pub run_fusion : Engine → Text → List Message → FusionResult
  run_fusion e tier messages = elim (lookup tier e.panels) [
    | none ↦ unknown_tier tier
    | some panel ↦ elim (deliberate a call messages panel.deliberator) [
      | none ↦ crashed
      | some spec ↦ run_panel tier panel messages spec
    ]
  ]

  unfoldable pub stream_panel : Panel → List Message → Spec → List StreamChunk
  stream_panel panel messages spec =
      let responses = fan_out a call panel spec in
      let valid = filter_valid responses in
      if ltb_ℤ (pos (length valid)) panel.min_quorum
      then quorum_error (length valid) (length responses) panel.min_quorum ∷ stop ∷ []
      else chunks_of (conclude (extract_question messages) valid panel)

  -- What is sent to the channel before it is closed.
  unfoldable pub run_fusion_stream : Engine → Text → List Message → StreamResult
  run_fusion_stream e tier messages = elim (lookup tier e.panels) [
    | none ↦ unknown_stream tier
    | some panel ↦ elim (deliberate a call messages panel.deliberator) [
      | none ↦ stream_crashed
      | some spec ↦ streamed (stream_panel panel messages spec)
    ]
  ]
