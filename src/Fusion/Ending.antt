-- ===== src/Fusion/Ending.antt =====
-- How a run of the fusion pipeline ends (internal/fusion/fusion.go, `RunFusion`).
use mathlib.Core.Path.{subst}
use hive_mind_fusion.Prelude.{
  sym, ℕ, ◌<◌, ◌+◌, ◌/◌, ◌%◌, ◌^◌, ltb_ℤ, true, is_empty, keep, Bool-cases, ◌∙◌, pos, ◌≤ℤ◌, Text,
  text, lookup, false, List, [], ◌∷◌, none, some, length, ◌≡◌, ◌≢◌, inl, inr, refl, arith,
  Option-cases, replace_first,
}
use hive_mind_fusion.Fusion.{
  Message, BackendResponse, CallResult, Caller, Panel, Engine, is_answer, synthesizing,
}
use hive_mind_fusion.Fusion.Transforms.{Spec, transform_for_model}
use hive_mind_fusion.Fusion.Stages.{
  Assets, extract_question, filter_valid, deliberate, fan_out, is_failed, run_judge, synthesize,
  synth_spec, analysis_text, format_responses, messages_of,
}
use hive_mind_fusion.Fusion.Pipeline.{
  Completion, FusionResult, unknown_tier, crashed, no_quorum, completed, total_tokens, complete,
  conclude, run_panel, run_fusion,
}
use hive_mind_fusion.Fusion.Outcome.{fan_out_lem}

-- `vs` has those of `rs` that came without an error and with some content, in their order.
pub data Kept : List BackendResponse → List BackendResponse → Type 0 where
  all_seen : Kept [] []
  taken :
      (r : BackendResponse) (rs vs : List BackendResponse)
      → r.error ≡ []
      → r.content ≢ []
      → Kept rs vs
      → Kept (r ∷ rs) (r ∷ vs)
  with_error :
      (r : BackendResponse) (rs vs : List BackendResponse)
      → r.error ≢ []
      → Kept rs vs
      → Kept (r ∷ rs) vs
  without_content :
      (r : BackendResponse) (rs vs : List BackendResponse)
      → r.content ≡ []
      → Kept rs vs
      → Kept (r ∷ rs) vs

pub data Fate : BackendResponse → Type 0 where
  answered : (r : BackendResponse) → is_answer r ≡ true → r.error ≡ [] → r.content ≢ [] → Fate r
  erred : (r : BackendResponse) → is_answer r ≡ false → r.error ≢ [] → Fate r
  silent : (r : BackendResponse) → is_answer r ≡ false → r.content ≡ [] → Fate r

fate : (r : BackendResponse) → Fate r
fate r = elim (Bool-cases (is_empty r.error)) [
  | inl clean ↦ elim (Bool-cases (is_empty r.content)) [
    | inl blank ↦ silent r (ground arith) (ground arith)
    | inr some_text ↦ answered r (ground arith) (ground arith) (ground arith)
  ]
  | inr bad ↦ erred r (ground arith) (ground arith)
]

Kept-filter_valid : (rs : List BackendResponse) → Kept rs (filter_valid rs)
unfolding filter_valid
Kept-filter_valid [] = all_seen
Kept-filter_valid (r ∷ rs) =
    let rest = Kept-filter_valid rs in
    elim (fate r) [
      | answered r is_one clean some_text ↦
          rw is_one (taken r rs (keep is_answer rs) clean some_text rest)
      | erred r out bad ↦ rw out (with_error r rs (keep is_answer rs) bad rest)
      | silent r out blank ↦ rw out (without_content r rs (keep is_answer rs) blank rest)
    ]

abbrev pub tokens_of : List BackendResponse → ℕ
tokens_of [] = 0
tokens_of (r ∷ rs) = r.tokens + tokens_of rs

total_tokens_lem :
    (acc : ℕ) (rs : List BackendResponse)
    → acc < 2 ^ 64
    → total_tokens acc rs ≡ (acc + tokens_of rs) % 2 ^ 64
unfolding total_tokens
total_tokens_lem acc [] h = omega (arith, h)
total_tokens_lem acc (r ∷ rs) h =
    let rest = total_tokens_lem ((acc + r.tokens) % 2 ^ 64) rs (omega arith) in rest ∙ omega arith

module _ (a : Assets) (call : Caller) (e : Engine) (tier : Text) (messages : List Message) where
  -- A known tier's panel, the spec that deliberation made of the question, and the responses with an
  -- answer among those of its panelists.
  pub record Asked : Type 0 where
    pub panel : Panel
    pub found : lookup tier e.panels ≡ some panel
    pub spec : Spec
    pub deliberated : deliberate a call messages panel.deliberator ≡ some spec
    pub valid : List BackendResponse
    pub kept : Kept (fan_out a call panel spec) valid

  -- The call of the synthesizer.
  abbrev pub synthesis : List BackendResponse → Panel → CallResult
  synthesis valid panel =
      let question = extract_question messages in
      let analysis = (run_judge a call question valid panel.judge).0 in
      call synthesizing panel.synth (
        messages_of (
          transform_for_model a.templates
            (synth_spec (
              replace_first (text "{analysis}") (analysis_text a analysis) (
                replace_first (text "{responses}") (format_responses valid)
                  (replace_first (text "{question}") question a.synthesizer_prompt))))
            panel.synth))

  pub record Answers (c : Completion) (asked : Asked) : Type 0 where
    pub quorum : asked.panel.min_quorum ≤ℤ pos (length asked.valid)
    pub failure :
        is_failed (synthesis asked.valid asked.panel) ≡ true
        → c.content ≡ text "[Fusion synthesis failed]"
    pub success :
        is_failed (synthesis asked.valid asked.panel) ≡ false
        → c.content ≡ (synthesis asked.valid asked.panel).response.content
    pub prompt : c.prompt_tokens ≡ tokens_of (fan_out a call asked.panel asked.spec) % 2 ^ 64
    pub completion : c.completion_tokens ≡ length c.content / 4
    pub total : c.total_tokens ≡ (c.prompt_tokens + c.completion_tokens) % 2 ^ 64
    pub names : (c.tier ≡ tier) × (c.judge ≡ asked.panel.judge) × (c.synth ≡ asked.panel.synth)

  -- What the run went through for each of its results.
  abbrev pub Ended : FusionResult → Type 0
  Ended (unknown_tier t) = (t ≡ tier) × (lookup tier e.panels ≡ none)
  Ended crashed =
      (panel : Panel) × (lookup tier e.panels ≡ some panel)
      × (deliberate a call messages panel.deliberator ≡ none)
  Ended (no_quorum v n q) =
      (asked : Asked) × (v ≡ length asked.valid)
      × (n ≡ length asked.panel.panelists)
      × (q ≡ asked.panel.min_quorum)
      × ¬ (q ≤ℤ pos v)
  Ended (completed c) = (asked : Asked) × Answers c asked

  run_panel-Ended :
      (panel : Panel) (spec : Spec)
      → lookup tier e.panels ≡ some panel
      → deliberate a call messages panel.deliberator ≡ some spec
      → Ended (run_panel a call tier panel messages spec)
  unfolding run_panel complete conclude synthesize
  run_panel-Ended panel spec found deliberated =
      let responses = fan_out a call panel spec in
      let valid = filter_valid responses in
      let asked : Asked = record {
        panel = panel;
        found = found;
        spec = spec;
        deliberated = deliberated;
        valid = valid;
        kept = Kept-filter_valid responses;
      } in
      elim (Bool-cases (ltb_ℤ (pos (length valid)) panel.min_quorum)) [
        | inl few ↦ rw few (asked, refl, (fan_out_lem a call spec panel).1, refl, ground arith)
        | inr enough ↦ rw enough (
          asked,
          record {
            quorum = ground arith;
            failure = λ h. ground arith;
            success = λ h. ground arith;
            prompt = total_tokens_lem 0 responses (omega arith) ∙ omega arith;
            completion = refl;
            total = refl;
            names = (refl, refl, refl);
          },
        )
      ]

  -- A run of the pipeline, whatever the calls return, ends in one of four ways. The tier is unknown. Or it is
  -- known, and deliberation panics. Or deliberation gives a spec, and with the panelists' responses for it:
  -- there are fewer with an answer (no error, some content) than the panel's quorum, and the error
  -- has their number, that of the panelists and the quorum; or they reach the quorum, the content is what the synthesizer
  -- answers for them (a fixed text if its call fails), the prompt tokens are the sum over all
  -- responses and the total is the sum with a quarter of the content's length, modulo 2^64.
  pub run_fusion-Ended : Ended (run_fusion a call e tier messages)
  unfolding run_fusion
  run_fusion-Ended = elim (Option-cases (lookup tier e.panels)) [
    | inl gone ↦
        let end : run_fusion a call e tier messages ≡ unknown_tier tier = ground arith in
        subst Ended (sym end) (refl, gone)
    | inr (panel, found) ↦ elim (Option-cases (deliberate a call messages panel.deliberator)) [
      | inl broken ↦
          let end : run_fusion a call e tier messages ≡ crashed = ground arith in
          subst Ended (sym end) (panel, found, broken)
      | inr (spec, deliberated) ↦
          let end : run_fusion a call e tier messages ≡ run_panel a call tier panel messages spec =
            ground arith in
          subst Ended (sym end) (run_panel-Ended panel spec found deliberated)
    ]
  ]
