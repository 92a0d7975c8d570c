-- ===== src/Rag/Delimiters.antt =====
-- Retrieved text stays inside its delimiters (internal/rag/middleware.go, `buildContextBlock` and the cap
-- of `InjectContext`).
use hive_mind_fusion.Prelude.{
  ℕ, zero, suc, ◌+◌, ◌≤◌, ltb, Text, text, has_prefix, contains, true, false, ◌||◌, List, [], ◌∷◌,
  ◌++◌, append_assoc, append-nil, length, length-append, take, drop, ◌≡◌, refl, sym, ap, ◌∙◌, arith,
  Bool-cases, inl, inr, ltb→lt, ◌⊎◌,
}
use hive_mind_fusion.Rag.{SearchResult}
use hive_mind_fusion.Rag.Context.{
  opening, closing, Format, entries, intro, build_context_block, max_context_chars, truncation,
  capped,
}
use hive_mind_fusion.Rag.Isolation.{
  Without, Without-of_mem, Free, Free-newline, Free-left, Free-entries,
}

take-append : (x y : Text) (n : ℕ) → take (length x + n) (x ++ y) ≡ x ++ take n y
take-append [] y n = ap (λ (k : ℕ). take k y) (omega arith)
take-append (c ∷ x) y n =
    let count : suc (length x) + n ≡ suc (length x + n) = omega arith in
    ap (λ (k : ℕ). take k (c ∷ x ++ y)) count ∙ ap (λ (s : Text). c ∷ s) (take-append x y n)

take-append_le : (n : ℕ) (x y : Text) → n ≤ length x → take n (x ++ y) ≡ take n x
take-append_le zero x y h = refl
take-append_le (suc n) [] y h = absurd (omega arith)
take-append_le (suc n) (c ∷ x) y h = ap (λ (s : Text). c ∷ s) (take-append_le n x y (omega arith))

take-drop : (n : ℕ) (x : Text) → x ≡ take n x ++ drop n x
take-drop zero x = refl
take-drop (suc n) [] = refl
take-drop (suc n) (c ∷ x) = ap (λ (s : Text). c ∷ s) (take-drop n x)

-- What stands between the delimiters, in front of a text.
inner : Format → List SearchResult → Text → Text
inner format rs y = 10 ∷ (intro ++ 10 ∷ 10 ∷ (entries format 0 rs ++ y))

-- The closing delimiter without its last byte.
partial : Text
partial = text "</retrieved_context"

unfoldable pub note : Text
note = 10 ∷ text "[... context truncated ...]"

-- No text between the delimiters holds either of them.
abbrev Clean : Text → Type 0
Clean s = (contains opening s ≡ false) × (contains closing s ≡ false)

module _ (q : Text) (line : Without 10 q) (bracket : Without b'[' q)
    (caught : (s : Text)
      → has_prefix (b'<' ∷ q) s ≡ true
      → has_prefix opening s || has_prefix closing s ≡ true)
    (clean_intro : Free q line bracket intro) (clean_partial : Free q line bracket partial)
    (format : Format) (clean_format : (n : ℕ) → Without b'<' (format n))
    (rs : List SearchResult) where
  Free-inner : (y : Text) → Free q line bracket y → Free q line bracket (inner format rs y)
  unfolding inner contains
  Free-inner y h =
      let body = Free-entries q line bracket caught format 0 rs y clean_format h in
      let after = Free-newline q line bracket [] (entries format 0 rs ++ y) refl body in
      let said =
        Free-newline q line bracket intro (10 ∷ (entries format 0 rs ++ y)) clean_intro after in
      Free-newline q line bracket [] (intro ++ 10 ∷ 10 ∷ (entries format 0 rs ++ y)) refl said

  Free-cut : (n : ℕ) → Free q line bracket (take n (inner format rs partial) ++ 10 ∷ [])
  unfolding contains
  Free-cut n =
      let whole = Free-inner partial clean_partial in
      let parts = take-drop n (inner format rs partial) in
      let front =
        Free-left q line bracket (take n (inner format rs partial))
          (drop n (inner format rs partial)) (rw (sym parts) whole) in
      Free-newline q line bracket (take n (inner format rs partial)) [] front refl

caught-opening :
    (s : Text) → has_prefix opening s ≡ true → has_prefix opening s || has_prefix closing s ≡ true
caught-opening s h = ground (arith, h)

caught-closing :
    (s : Text) → has_prefix closing s ≡ true → has_prefix opening s || has_prefix closing s ≡ true
caught-closing s h = ground (arith, h)

Clean-inner :
    (format : Format)
    → ((n : ℕ) → Without b'<' (format n))
    → (rs : List SearchResult) → Clean (inner format rs [])
unfolding opening closing text intro contains has_prefix partial
Clean-inner format h rs =
    let open_name = text "retrieved_context>" in
    let close_name = text "/retrieved_context>" in
    (
      Free-inner open_name (Without-of_mem 10 open_name refl) (Without-of_mem b'[' open_name refl)
          caught-opening refl refl format h rs [] refl,
      Free-inner close_name (Without-of_mem 10 close_name refl)
          (Without-of_mem b'[' close_name refl) caught-closing refl refl format h rs [] refl,
    )

Clean-cut :
    (format : Format)
    → ((n : ℕ) → Without b'<' (format n))
    → (rs : List SearchResult) (n : ℕ) → Clean (take n (inner format rs partial) ++ 10 ∷ [])
unfolding opening closing text intro contains has_prefix partial
Clean-cut format h rs n =
    let open_name = text "retrieved_context>" in
    let close_name = text "/retrieved_context>" in
    (
      Free-cut open_name (Without-of_mem 10 open_name refl) (Without-of_mem b'[' open_name refl)
          caught-opening refl refl format h rs n,
      Free-cut close_name (Without-of_mem 10 close_name refl) (Without-of_mem b'[' close_name refl)
          caught-closing refl refl format h rs n,
    )

-- The block with its last byte apart.
build_context_block-partial :
    (format : Format) (rs : List SearchResult)
    → build_context_block format rs ≡ (opening ++ inner format rs partial) ++ b'>' ∷ []
unfolding build_context_block inner partial closing text
build_context_block-partial format rs = simp append_assoc

build_context_block-inner :
    (format : Format) (rs : List SearchResult)
    → build_context_block format rs ≡ opening ++ (inner format rs [] ++ (closing ++ []))
unfolding build_context_block inner
build_context_block-inner format rs = simp (append_assoc, append-nil)

capped-over :
    (format : Format) (rs : List SearchResult)
    → ltb max_context_chars (length (build_context_block format rs)) ≡ true
    → capped (build_context_block format rs)
      ≡ opening ++ ((take 8173 (inner format rs partial) ++ 10 ∷ []) ++ (closing ++ note))
unfolding capped max_context_chars truncation opening text note
capped-over format rs h =
    let front = opening ++ inner format rs partial in
    let parts = build_context_block-partial format rs in
    let size = length-append front (b'>' ∷ []) in
    let fits : 8192 ≤ length front =
      omega
        (arith, ltb→lt 8192 (length (build_context_block format rs)) h, ap length parts, size) in
    let cut =
      ap (take 8192) parts
      ∙ (take-append_le 8192 front (b'>' ∷ []) fits
          ∙ take-append opening (inner format rs partial) 8173) in
    rw (h, cut) (simp append_assoc)

capped-under :
    (format : Format) (rs : List SearchResult)
    → ltb max_context_chars (length (build_context_block format rs)) ≡ false
    → capped (build_context_block format rs) ≡ opening ++ (inner format rs [] ++ (closing ++ []))
unfolding capped
capped-under format rs h = rw h (build_context_block-inner format rs)

-- For each list of results, and scores whose texts hold no "<": what is injected is the opening
-- delimiter, then a text that holds neither delimiter, then the closing delimiter, and behind it nothing or the note
-- that the context was truncated.
pub capped-build_context_block :
    (format : Format)
    → ((n : ℕ) → Without b'<' (format n))
    → (rs : List SearchResult)
    → (body : Text) × (tail : Text) × (capped (build_context_block format rs)
        ≡ opening ++ (body ++ (closing ++ tail)))
      × (contains opening body ≡ false)
      × (contains closing body ≡ false)
      × ((tail ≡ []) ⊎ (tail ≡ note))
capped-build_context_block format h rs =
    elim (Bool-cases (ltb max_context_chars (length (build_context_block format rs)))) [
      | inl y ↦ (
        take 8173 (inner format rs partial) ++ 10 ∷ [],
        note,
        capped-over format rs y,
        (Clean-cut format h rs 8173).0,
        (Clean-cut format h rs 8173).1,
        inr refl,
      )
      | inr n ↦ (
        inner format rs [],
        [],
        capped-under format rs n,
        (Clean-inner format h rs).0,
        (Clean-inner format h rs).1,
        inl refl,
      )
    ]
