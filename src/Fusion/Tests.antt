-- ===== src/Fusion/Tests.antt =====
-- Runs of the fusion engine at concrete inputs (internal/fusion).
use hive_mind_fusion.Prelude.{
  ℕ, zero, ◌<◌, pos, Text, text, same, has_prefix, contains, trim_space, to_lower, Map, lookup,
  true, false, [], ◌∷◌, none, some, replicate, All, ◌≡◌, ◌≢◌, ◌↔◌, refl, arith,
}
use hive_mind_fusion.Fusion.{panelist, synthesizing, CallResult, Caller, Panel, Engine}
use hive_mind_fusion.Fusion.Transforms.{
  qwen, family_of, any_of, str, Spec, is_word, render_template, render_from, scan_byte,
}
use hive_mind_fusion.Fusion.Stages.{
  Assets, filter_valid, is_failed, braced, strip_fence, with_input, deliberate, ask, fan_out_from,
  fan_out, synthesize,
}
use hive_mind_fusion.Fusion.Pipeline.{
  Completion, total_tokens, complete, completed, conclude, run_panel, run_fusion, stream_crashed,
  run_fusion_stream,
}
use hive_mind_fusion.Fusion.Outcome.{
  deliberation, stream_of, run_fusion_stream-agrees, deliberate-eq-none_iff,
}
use hive_mind_fusion.Fusion.Ending.{Ended, run_fusion-Ended}
use hive_mind_fusion.Fusion.FanOut.{blank, listed, collect, collect-fan_out}

-- No prompts, and a decoder that reads every text as null.
abbrev assets : Assets
assets = record {
  templates = λ family. [];
  deliberator_prompt = text "{input}";
  judge_prompt = [];
  synthesizer_prompt = [];
  decode_object = λ s. some none;
  encode_object = λ spec. none;
}

-- The deliberator fails, the first panelist and the synthesizer answer, all else is an error.
abbrev responds : Text → Text → CallResult
responds model content = record {
  response = record { model = model; content = content; tokens = 5; latency_ms = 1; error = [] };
  err = none;
}

abbrev fails : Text → CallResult
fails model = record {
  response = record { model = model; content = []; tokens = 0; latency_ms = 0; error = text "e" };
  err = some (text "e");
}

abbrev call : Caller
call (panelist zero) model messages = responds model (text "yes")
call synthesizing model messages = responds model (text "a b")
call stage model messages = fails model

abbrev panel : Panel
panel = record {
  name = text "t";
  panelists = text "m" ∷ text "n" ∷ [];
  judge = text "m";
  synth = text "m";
  deliberator = text "m";
  timeout_ms = pos 1000;
  min_quorum = pos 1;
}

abbrev engine : Engine
engine = record { panels = (text "t", panel) ∷ [] }

abbrev answer : Completion
answer = record {
  tier = text "t";
  content = text "a b";
  prompt_tokens = 5;
  completion_tokens = 0;
  total_tokens = 5;
  judge = text "m";
  synth = text "m";
}

completes : run_fusion assets call engine (text "t") [] ≡ completed answer
unfolding run_fusion run_panel complete total_tokens conclude synthesize deliberate is_failed
    fan_out fan_out_from ask filter_valid lookup text same
completes = refl

run_fusion-Ended_example :
    Ended assets call engine (text "t") [] (run_fusion assets call engine (text "t") [])
run_fusion-Ended_example = run_fusion-Ended assets call engine (text "t") []

run_fusion_stream-agrees_example :
    run_fusion_stream assets call engine (text "t") []
    ≡ stream_of (run_fusion assets call engine (text "t") [])
run_fusion_stream-agrees_example = run_fusion_stream-agrees assets call engine (text "t") []

-- A deliberator that answers "null".
abbrev null_call : Caller
null_call stage model messages = responds model (text "null")

deliberate-eq-none_iff_example : (deliberate assets null_call [] (text "m") ≡ none) ↔ (
    (is_failed (deliberation assets null_call [] (text "m")) ≡ false)
    × ((deliberation assets null_call [] (text "m")).response.content ≢ [])
    × (assets.decode_object (
          braced (
            strip_fence
              (trim_space (deliberation assets null_call [] (text "m")).response.content)))
        ≡ some none))
deliberate-eq-none_iff_example = deliberate-eq-none_iff assets null_call [] (text "m")

null_crashes : run_fusion_stream assets null_call engine (text "t") [] ≡ stream_crashed
unfolding run_fusion_stream deliberate is_failed with_input lookup text same
null_crashes = refl

abbrev spec : Spec
spec = (text "task", str (text "q")) ∷ []

both : (i : ℕ) → i < 2 → listed i (1 ∷ 0 ∷ []) ≡ true
both i h = ground arith

-- The second panelist comes back first.
collect-fan_out_example :
    collect assets call spec panel.panelists (replicate 2 blank) (1 ∷ 0 ∷ [])
    ≡ fan_out assets call panel spec
collect-fan_out_example = collect-fan_out assets call spec panel (1 ∷ 0 ∷ []) both

some_tier : text "t" ≢ []
unfolding text
some_tier e = cc

abbrev subs : Map Text
subs = (text "x", text "{y}") ∷ (text "y", text "!") ∷ []

rendered : render_template (text "a {x} {y} {z} {") subs ≡ text "a {y} !  {"
unfolding render_template render_from scan_byte is_word lookup text same
rendered = refl

name-words : All (λ (c : ℕ). is_word c ≡ true) (b'x' ∷ [])
unfolding is_word
name-words = (refl, tt)

qwopus_is_qwen : family_of (text "Qwopus-1") ≡ qwen
unfolding family_of any_of contains has_prefix to_lower text
qwopus_is_qwen = refl
