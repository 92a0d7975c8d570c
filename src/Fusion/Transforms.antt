-- ===== src/Fusion/Transforms.antt =====
-- Model families, and the prompt for a model (internal/fusion/transforms.go). The embedded templates of
-- internal/fusion/prompts/formats are an argument.
use hive_mind_fusion.Prelude.{
  text_or_empty, ℕ, ◌==◌, leb, Text, text, is_empty, Map, lookup, insert, Bool, false, not, ◌&&◌,
  ◌||◌, List, [], ◌∷◌, ◌++◌, Option, none, some, if◌then◌else◌, map, to_lower, contains, cut_at,
  replace_first, trim_space, join,
}

pub data Family : Type 0 where
  qwen claude gpt glm : Family

unfoldable pub any_of : Text → List Text → Bool
any_of m [] = false
any_of m (p ∷ ps) = contains p m || any_of m ps

-- The order of the tests matters: "qwopus" contains "opus".
unfoldable pub family_of : Text → Family
family_of model =
    let m = to_lower model in
    if any_of m (text "qwen" ∷ text "qwopus" ∷ text "ollama" ∷ text "turboquant" ∷ [])
    then qwen
    else if any_of m (text "claude" ∷ text "opus" ∷ text "sonnet" ∷ text "haiku" ∷ [])
    then claude
    else if contains (text "gpt") m
    then gpt
    else if contains (text "glm") m
    then glm
    else claude

-- A value of a task spec. An element of a list, and a value of any other type, is kept as the text
-- that `%v` makes of it.
pub data Value : Type 0 where
  null : Value
  str : Text → Value
  arr : List Text → Value
  other : Text → Value

abbrev pub Spec : Type 0
Spec = Map Value

unfoldable pub bullet : Text → Text
bullet item = text "- " ++ item

unfoldable pub coerce_str : Value → Text → Text
coerce_str null fallback = fallback
coerce_str (str v) fallback = if is_empty v then fallback else v
coerce_str (arr items) fallback = join (10 ∷ []) (map bullet items)
coerce_str (other v) fallback = v

-- `m[k]`, nil where the key is missing.
abbrev pub value_or_null : Option Value → Value
value_or_null none = null
value_or_null (some v) = v

abbrev pub get : Text → Spec → Value
get k spec = value_or_null (lookup k spec)

unfoldable pub first_of : Spec → List Text → Value
first_of spec [] = null
first_of spec (k ∷ ks) = elim (get k spec) [ null ↦ first_of spec ks | other_value ↦ other_value ]

unfoldable pub substitutions : Spec → Map Text
substitutions spec =
    (text "role", coerce_str (get (text "role") spec) (text "an expert assistant"))
    ∷ (text "role_expansion", coerce_str (get (text "role") spec) (text "an expert assistant"))
    ∷ (text "task", coerce_str (first_of spec (text "task" ∷ text "input" ∷ [])) [])
    ∷ (text "context", coerce_str (get (text "context") spec) [])
    ∷ (text "constraints", coerce_str (get (text "constraints") spec) [])
    ∷ (
      text "output_format",
      coerce_str (get (text "output_format") spec) (text "Respond clearly and concisely."),
    )
    ∷ (text "guidance_blocks", coerce_str (get (text "guidance_blocks") spec) [])
    ∷ (text "input", coerce_str (get (text "input") spec) [])
    ∷ []

-- `\w`.
unfoldable pub is_word : ℕ → Bool
is_word c =
    (leb b'0' c && leb c b'9')
    || ((leb b'A' c && leb c b'Z') || ((leb b'a' c && leb c b'z') || c == b'_'))

-- The state of the search for `\{(\w+)\}`: outside a placeholder, or behind a "{" and word characters.
pub data Mode : Type 0 where
  outside : Mode
  inside : Text → Mode

-- What one byte writes to the output, and the state after it. A "{" with characters that turn out to
-- be no placeholder is copied.
unfoldable pub scan_byte : Map Text → Mode → ℕ → Text × Mode
scan_byte subs outside c = if c == b'{' then ([], inside []) else (c ∷ [], outside)
scan_byte subs (inside name) c =
    if is_word c
    then ([], inside (name ++ c ∷ []))
    else if c == b'}' && not (is_empty name)
    then (text_or_empty (lookup name subs), outside)
    else if c == b'{'
    then (b'{' ∷ name, inside [])
    else ((b'{' ∷ name) ++ c ∷ [], outside)

abbrev pub pending : Mode → Text
pending outside = []
pending (inside name) = b'{' ∷ name

unfoldable pub render_from : Map Text → Mode → Text → Text
unfolding scan_byte
render_from subs m [] = pending m
render_from subs m (c ∷ s) = let (out, m') = scan_byte subs m c in out ++ render_from subs m' s

-- `placeholderRe.ReplaceAllStringFunc`.
unfoldable pub render_template : Text → Map Text → Text
unfolding render_from
render_template tmpl subs = render_from subs outside tmpl

-- The system and user parts around the first "[USER]", without the first "[SYSTEM]".
unfoldable pub split_system_user : Text → Text × Text
split_system_user rendered = elim (cut_at (text "[USER]") rendered) [
  | some (before, after) ↦
      (trim_space (replace_first (text "[SYSTEM]") [] before), trim_space after)
  | none ↦ (trim_space (replace_first (text "[SYSTEM]") [] rendered), [])
]

-- `variantEffort`.
unfoldable pub variant_effort : Map Text
variant_effort =
    (text "claude-opus-4-8", text "xhigh")
    ∷ (text "claude-sonnet-4-6", text "high")
    ∷ (text "claude-haiku-4-5", text "medium")
    ∷ (text "gpt-5.5", text "high")
    ∷ (text "gpt-5.4", text "medium")
    ∷ (text "gpt-5.4-mini", text "medium")
    ∷ (text "gpt-5.3-codex", text "high")
    ∷ (text "gpt-5.2", text "medium")
    ∷ (text "glm-5.2", text "high")
    ∷ []

-- A sampling parameter: the four numbers of `familyParams` are kept as their decimal texts.
pub data Param : Type 0 where
  word : Text → Param
  number : Text → Param
  thinking : Text → Param

-- `copyParams`.
unfoldable pub copy_params : Family → Map Param
copy_params claude = (text "effort", word (text "high")) ∷ []
copy_params gpt = (text "reasoning_effort", word (text "medium")) ∷ []
copy_params glm =
    (text "temperature", number (text "1.0")) ∷ (text "top_p", number (text "0.95")) ∷ []
copy_params qwen =
    (text "temperature", number (text "0.7")) ∷ (text "top_p", number (text "0.8")) ∷ []

unfoldable pub with_effort : Family → Option Text → Map Param → Map Param
with_effort family none params = params
with_effort claude (some effort) params = insert (text "effort") (word effort) params
with_effort gpt (some effort) params = insert (text "reasoning_effort") (word effort) params
with_effort glm (some effort) params = insert (text "thinking") (thinking effort) params
with_effort qwen (some effort) params = params

pub record TransformResult : Type 0 where
  pub system : Text
  pub user : Text
  pub params : Map Param

-- `templates` stands for the embedded files, one for each family.
unfoldable pub transform_for_model : (Family → Text) → Spec → Text → TransformResult
transform_for_model templates spec model =
    let family = family_of model in
    let parts = split_system_user (render_template (templates family) (substitutions spec)) in
    record {
      system = parts.0;
      user = parts.1;
      params = with_effort family (lookup model variant_effort) (copy_params family);
    }
