-- ===== src/Fusion/Stages.antt =====
-- The stages of the pipeline (internal/fusion/fusion.go): `deliberate`, `fanOut`, `runJudge` and
-- `synthesize`.
use hive_mind_fusion.Prelude.{
  ℕ, suc, ◌+◌, ◌-◌, ltb, Text, text, same, is_empty, has_prefix, insert, has_key, Bool, true, false,
  not, ◌&&◌, ◌||◌, List, [], ◌∷◌, ◌++◌, Option, none, some, if◌then◌else◌, map, reverse, length,
  take, drop, keep, replace_first, trim_space, split, join, index_of, last_index_of,
}
use hive_mind_fusion.Fusion.{
  Message, BackendResponse, CallResult, Caller, deliberating, panelist, judging, synthesizing,
  Panel, is_answer,
}
use hive_mind_fusion.Fusion.Transforms.{
  Family, Value, str, arr, Spec, TransformResult, transform_for_model,
}

-- The embedded prompts, and the JSON codec on objects. Decoding gives `some none` for the text
-- "null", which Go decodes to a nil map without an error.
pub record Assets : Type 0 where
  pub templates : Family → Text
  pub deliberator_prompt : Text
  pub judge_prompt : Text
  pub synthesizer_prompt : Text
  pub decode_object : Text → Option (Option Spec)
  pub encode_object : Spec → Option Text

abbrev pub message_if : Bool → Message → List Message
message_if true m = m ∷ []
message_if false m = []

-- The content of the last message of the user.
unfoldable pub last_content : List Message → Text
last_content [] = []
last_content (m ∷ ms) =
    let rest = last_content ms in if same m.role (text "user") then m.content else rest

unfoldable pub extract_question : List Message → Text
unfolding last_content
extract_question messages = last_content (reverse messages)

unfoldable pub filter_valid : List BackendResponse → List BackendResponse
filter_valid responses = keep is_answer responses

unfoldable pub max_panelist_chars : ℕ
max_panelist_chars = 12000

-- The bytes of the dash "—".
abbrev pub dash : Text
dash = 0xe2 ∷ 0x80 ∷ 0x94 ∷ []

unfoldable pub truncated : Text → Text
unfolding max_panelist_chars
truncated content =
    if ltb max_panelist_chars (length content)
    then take max_panelist_chars content ++ (10 ∷ text "[...truncated...]")
    else content

unfoldable pub format_response : BackendResponse → Text
format_response r =
    text "### "
    ++ (r.model
        ++ (10
            ∷ (if is_answer r
                then truncated r.content
                else text "[NO RESPONSE " ++ (dash ++ (text " error: " ++ (r.error ++ text "]"))))))

unfoldable pub format_responses : List BackendResponse → Text
format_responses responses =
    join (10 ∷ 10 ∷ text "---" ++ (10 ∷ 10 ∷ [])) (map format_response responses)

-- The messages that a rendered spec becomes: the user part, with the system part in front if it is
-- not empty.
unfoldable pub messages_of : TransformResult → List Message
messages_of tr =
    message_if (not (is_empty tr.system)) (record { role = text "system"; content = tr.system })
    ++ record { role = text "user"; content = tr.user } ∷ []

unfoldable pub fallback_spec : Text → Spec
fallback_spec raw =
    (text "role", str (text "an expert assistant"))
    ∷ (text "task", str raw)
    ∷ (text "context", str [])
    ∷ (text "constraints", arr [])
    ∷ (text "output_format", str (text "Respond clearly and concisely."))
    ∷ (text "guidance_blocks", str [])
    ∷ (text "input", str raw)
    ∷ []

abbrev pub all_but_last : List Text → List Text
all_but_last [] = []
all_but_last (l ∷ []) = []
all_but_last (l ∷ k ∷ ls) = l ∷ all_but_last (k ∷ ls)

abbrev pub last_line : List Text → Text
last_line [] = []
last_line (l ∷ []) = l
last_line (l ∷ k ∷ ls) = last_line (k ∷ ls)

unfoldable pub fence : Text
unfolding text
fence = text "```"

-- Whether the lines open and close with a code fence around at least one line.
unfoldable pub is_fenced : List Text → Bool
is_fenced lines = ltb 2 (length lines) && has_prefix fence (last_line lines)

-- The judge's version: a fence that does not close is left.
unfoldable pub strip_closed_fence : Text → Text
strip_closed_fence raw =
    let lines = split 10 raw in
    if has_prefix fence raw && is_fenced lines
    then join (10 ∷ []) (all_but_last (drop 1 lines))
    else raw

-- The deliberator's version: the opening line of a fence that does not close is dropped too.
unfoldable pub strip_fence : Text → Text
strip_fence raw =
    let lines = split 10 raw in
    if has_prefix fence raw
    then (if is_fenced lines
        then join (10 ∷ []) (all_but_last (drop 1 lines))
        else if ltb 1 (length lines)
        then join (10 ∷ []) (drop 1 lines)
        else raw)
    else raw

abbrev pub between : Text → Option ℕ → Option ℕ → Text
between raw none e = raw
between raw (some s) none = raw
between raw (some s) (some e) = if ltb s e then take (e + 1 - s) (drop s raw) else raw

-- From the first "{" to the last "}".
unfoldable pub braced : Text → Text
braced raw = between raw (index_of b'{' raw) (last_index_of b'}' raw)

-- `err != nil || resp.Error != ""`.
unfoldable pub is_failed : CallResult → Bool
is_failed c = elim c.err [ none ↦ not (is_empty c.response.error) | some e ↦ true ]

-- A missing "input" is added; writing to a nil map panics (`none`).
unfoldable pub with_input : Text → Option Spec → Option Spec
with_input raw none = none
with_input raw (some spec) =
    some (if has_key (text "input") spec then spec else insert (text "input") (str raw) spec)

unfoldable pub judge_spec : Text → Spec
judge_spec filled =
    (text "role", str (text "a consensus analyst evaluating panelist responses"))
    ∷ (
      text "task",
      str (text "Analyze panelist responses and extract consensus, contradictions, and insights."),
    )
    ∷ (text "output_format", str (text "JSON object per the schema in the instructions"))
    ∷ (text "input", str filled)
    ∷ []

abbrev pub text_or : Text → Option Text → Text
text_or d none = d
text_or d (some t) = t

unfoldable pub analysis_text : Assets → Option Spec → Text
analysis_text a analysis =
    let missing =
      text "Judge analysis unavailable " ++ (dash ++ text " synthesize directly from responses.") in
    elim analysis [ none ↦ missing | some spec ↦ text_or missing (a.encode_object spec) ]

unfoldable pub synth_spec : Text → Spec
synth_spec filled =
    (text "role", str (text "a synthesis expert producing the final unified answer"))
    ∷ (
      text "task",
      str (text "Synthesize the panelist responses and judge analysis into one coherent answer."),
    )
    ∷ (text "output_format", str (text "The refined, coherent final answer in natural prose"))
    ∷ (text "input", str filled)
    ∷ []

module _ (a : Assets) (call : Caller) where
  -- `none` is the panic.
  unfoldable pub deliberate : List Message → Text → Option Spec
  deliberate messages model =
      let raw = extract_question messages in
      let filled = replace_first (text "{input}") raw a.deliberator_prompt in
      let c = call deliberating model (record { role = text "user"; content = filled } ∷ []) in
      if is_failed c || is_empty c.response.content
      then some (fallback_spec raw)
      else elim (a.decode_object (braced (strip_fence (trim_space c.response.content)))) [
        | none ↦ some (fallback_spec raw)
        | some spec ↦ with_input raw spec
      ]

  -- The goroutine of one panelist.
  unfoldable pub ask : Spec → ℕ → Text → BackendResponse
  ask spec i m =
      let c = call (panelist i) m (messages_of (transform_for_model a.templates spec m)) in
      elim c.err [
        | some e ↦ record {
          model = m;
          content = [];
          tokens = 0;
          latency_ms = 0;
          error = text "call failed: " ++ e;
        }
        | none ↦ record (c.response) { model = m }
      ]

  unfoldable pub fan_out_from : Spec → ℕ → List Text → List BackendResponse
  fan_out_from spec i [] = []
  fan_out_from spec i (m ∷ ms) = ask spec i m ∷ fan_out_from spec (suc i) ms

  -- `results` after `wg.Wait()`.
  unfoldable pub fan_out : Panel → Spec → List BackendResponse
  fan_out panel spec = fan_out_from spec 0 panel.panelists

  -- The analysis, nil after a failure or for "null"; the second result says whether the judge spoke.
  unfoldable pub run_judge : Text → List BackendResponse → Text → Option Spec × Bool
  run_judge question responses model =
      let filled =
        replace_first (text "{responses}") (format_responses responses)
          (replace_first (text "{question}") question a.judge_prompt) in
      let c =
        call judging model
          (messages_of (transform_for_model a.templates (judge_spec filled) model)) in
      if is_failed c || is_empty c.response.content
      then (none, false)
      else elim (a.decode_object (strip_closed_fence (trim_space c.response.content))) [
        | none ↦ (
          some (
              (text "raw_text", str c.response.content)
              ∷ (text "parse_error", Value.other (text "true"))
              ∷ []),
          true,
        )
        | some analysis ↦ (analysis, true)
      ]

  unfoldable pub synthesize : Text → List BackendResponse → Option Spec → Text → Text
  synthesize question responses analysis model =
      let filled = replace_first (text "{analysis}") (analysis_text a analysis) (
        replace_first (text "{responses}") (format_responses responses)
          (replace_first (text "{question}") question a.synthesizer_prompt)) in
      let c =
        call synthesizing model
          (messages_of (transform_for_model a.templates (synth_spec filled) model)) in
      if is_failed c then text "[Fusion synthesis failed]" else c.response.content
