-- ===== src/Rag/Context.antt =====
-- The context block (internal/rag/middleware.go): `extractText`, the sanitizer, `buildContextBlock`, its
-- cap, and `prependSystemContext`.
use hive_mind_fusion.Prelude.{
  ℕ, zero, suc, ◌+◌, ltb, Text, text, same, is_empty, has_prefix, decimal, Map, lookup, List, [],
  ◌∷◌, ◌++◌, Option, none, some, if◌then◌else◌, length, take,
}
use hive_mind_fusion.Rag.{Field, str, other, SearchResult, ChatMessage}

abbrev pub text_of : Option Field → Text
text_of (some (str s)) = s
text_of (some other) = []
text_of none = []

-- The first field of these names that holds a string that is not empty.
unfoldable pub first_text : Map Field → List Text → Text
first_text payload [] = []
first_text payload (key ∷ keys) =
    let rest = first_text payload keys in
    if is_empty (text_of (lookup key payload)) then rest else text_of (lookup key payload)

unfoldable pub extract_text : Map Field → Text
unfolding first_text
extract_text payload =
    first_text payload
      (text "content" ∷ text "text" ∷ text "body" ∷ text "chunk" ∷ text "page_content" ∷ [])

unfoldable pub opening : Text
unfolding text
opening = text "<retrieved_context>"

unfoldable pub closing : Text
unfolding text
closing = text "</retrieved_context>"

-- `contextSanitizer.Replace`, with the bytes of a delimiter that are still to be passed over.
unfoldable pub sanitize_from : ℕ → Text → Text
sanitize_from n [] = []
sanitize_from (suc n) (c ∷ s) = sanitize_from n s
sanitize_from zero (c ∷ s) =
    let after_open = text "[blocked]" ++ sanitize_from 18 s in
    let after_close = text "[blocked]" ++ sanitize_from 19 s in
    let plain = c ∷ sanitize_from 0 s in
    if has_prefix opening (c ∷ s)
    then after_open
    else if has_prefix closing (c ∷ s)
    then after_close
    else plain

unfoldable pub sanitize : Text → Text
sanitize s = sanitize_from 0 s

-- `%.3f` of a score.
abbrev pub Format : Type 0
Format = ℕ → Text

unfoldable pub label : Format → ℕ → SearchResult → Text
label format i r =
    text "[" ++ (decimal (i + 1) ++ (text "] (score " ++ (format r.score ++ text ")")))

-- The entries from this index on.
unfoldable pub entries : Format → ℕ → List SearchResult → Text
entries format i [] = []
entries format i (r ∷ rs) =
    let rest = entries format (i + 1) rs in
    let body = sanitize (extract_text r.payload) in
    if is_empty body then rest else label format i r ++ 10 ∷ (body ++ 10 ∷ 10 ∷ rest)

unfoldable pub intro : Text
unfolding text
intro = text "Relevant context retrieved from knowledge base:"

unfoldable pub build_context_block : Format → List SearchResult → Text
build_context_block format results =
    opening ++ 10 ∷ (intro ++ 10 ∷ 10 ∷ (entries format 0 results ++ closing))

unfoldable pub max_context_chars : ℕ
max_context_chars = 8192

unfoldable pub truncation : Text
truncation = 10 ∷ (closing ++ 10 ∷ text "[... context truncated ...]")

unfoldable pub capped : Text → Text
unfolding max_context_chars truncation
capped block =
    if ltb max_context_chars (length block)
    then take max_context_chars block ++ truncation
    else block

unfoldable pub prepend_system_context : List ChatMessage → Text → List ChatMessage
prepend_system_context messages [] = messages
prepend_system_context [] (c ∷ context) =
    record { role = text "system"; content = c ∷ context } ∷ []
prepend_system_context (m ∷ ms) (c ∷ context) =
    if same m.role (text "system")
    then record m { content = (c ∷ context) ++ 10 ∷ 10 ∷ m.content } ∷ ms
    else record { role = text "system"; content = c ∷ context } ∷ m ∷ ms
