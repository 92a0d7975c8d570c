-- ===== src/Rag/Isolation.antt =====
-- Texts in which a delimiter does not occur (internal/rag/middleware.go, `contextSanitizer`,
-- `buildContextBlock`).
use hive_mind_fusion.Prelude.{
  ℕ, zero, suc, ◌+◌, ◌/◌, ◌%◌, ltb, Text, text, is_empty, has_prefix, contains, decimal,
  digits_before, true, false, ◌||◌, List, [], ◌∷◌, ◌++◌, append_assoc, All, All-append, ◌≡◌, ◌≢◌,
  refl, arith, Bool-cases, inl, inr, mem_byte,
}
use hive_mind_fusion.Rag.{SearchResult}
use hive_mind_fusion.Rag.Context.{
  opening, closing, sanitize_from, sanitize, Format, label, entries, extract_text,
}

-- No byte of a text is this one.
abbrev pub Without : ℕ → Text → Type 0
Without d s = All (λ (c : ℕ). c ≢ d) s

has_prefix-append : (p x y : Text) → has_prefix p x ≡ true → has_prefix p (x ++ y) ≡ true
unfolding has_prefix
has_prefix-append [] x y h = refl
has_prefix-append (a ∷ p) [] y h = cc
has_prefix-append (a ∷ p) (c ∷ x) y h = ground (arith, has_prefix-append p x y)

-- A prefix with no `d` ends before one.
has_prefix-before :
    (p x y : Text) (d : ℕ) → Without d p → has_prefix p (x ++ d ∷ y) ≡ true → has_prefix p x ≡ true
unfolding has_prefix
has_prefix-before [] x y d h e = refl
has_prefix-before (a ∷ p) [] y d (h, hs) e = absurd (ground arith)
has_prefix-before (a ∷ p) (c ∷ x) y d (h, hs) e = ground (arith, has_prefix-before p x y d hs)

-- What is sanitized begins with no more of a pattern without "[" than the text before.
has_prefix-sanitize_from :
    (p s : Text) → Without b'[' p → has_prefix p (sanitize_from 0 s) ≡ true → has_prefix p s ≡ true
unfolding has_prefix sanitize_from text
has_prefix-sanitize_from [] s h e = refl
has_prefix-sanitize_from (a ∷ p) [] h e = e
has_prefix-sanitize_from (a ∷ p) (c ∷ s) (h, hs) e = ground (arith, has_prefix-sanitize_from p s hs)

pub Without-of_mem : (d : ℕ) (s : Text) → mem_byte d s ≡ false → Without d s
Without-of_mem d [] h = tt
Without-of_mem d (c ∷ s) h = (ground (arith, h), Without-of_mem d s (ground (arith, h)))

Without-blocked : Without b'<' (text "[blocked]")
unfolding text
Without-blocked = Without-of_mem b'<' (text "[blocked]") refl

Without-digits_before :
    (fuel n : ℕ) (s : Text) → Without b'<' s → Without b'<' (digits_before fuel n s)
unfolding digits_before
Without-digits_before zero n s h = h
Without-digits_before (suc fuel) n s h =
    let more = Without-digits_before fuel (n / 10) ((b'0' + n % 10) ∷ s) (omega arith, h) in
    elim (Bool-cases (ltb n 10)) [ inl y ↦ rw y ((ground (arith, y)), h) | inr m ↦ rw m more ]

Without-append : (x y : Text) → Without b'<' x → Without b'<' y → Without b'<' (x ++ y)
Without-append = All-append (λ (c : ℕ). c ≢ b'<')

Without-label :
    (format : Format) (i : ℕ) (r : SearchResult)
    → ((n : ℕ) → Without b'<' (format n))
    → Without b'<' (label format i r)
unfolding label text decimal
Without-label format i r h =
    let scored =
      Without-append (format r.score) (text ")") (h r.score)
        (Without-of_mem b'<' (text ")") refl) in
    let tail =
      Without-append (text "] (score ") (format r.score ++ text ")")
        (Without-of_mem b'<' (text "] (score ") refl) scored in
    let number = Without-digits_before (suc (i + 1)) (i + 1) [] tt in
    let numbered =
      Without-append (decimal (i + 1)) (text "] (score " ++ (format r.score ++ text ")")) number
        tail in
    Without-append (text "[")
      (decimal (i + 1) ++ (text "] (score " ++ (format r.score ++ text ")")))
      (Without-of_mem b'<' (text "[") refl) numbered

append_assoc-entry :
    (l b e y : Text) → (l ++ 10 ∷ (b ++ 10 ∷ 10 ∷ e)) ++ y ≡ l ++ 10 ∷ (b ++ 10 ∷ 10 ∷ (e ++ y))
append_assoc-entry l b e y = simp append_assoc

-- A pattern that begins with "<" and holds neither another "<" nor a newline nor a "[".
module _ (q : Text) (line : Without 10 q) (bracket : Without b'[' q) where
  abbrev pub p : Text
  p = b'<' ∷ q

  abbrev pub Free : Text → Type 0
  Free s = contains p s ≡ false

  pub Free-left : (x y : Text) → Free (x ++ y) → Free x
  unfolding contains
  Free-left [] y h = refl
  Free-left (c ∷ x) y h = ground (arith, Free-left x y, has_prefix-append p (c ∷ x) y)

  pub Free-newline : (x y : Text) → Free x → Free y → Free (x ++ 10 ∷ y)
  unfolding contains has_prefix
  Free-newline [] y h k = ground arith
  Free-newline (c ∷ x) y h k =
      ground (arith, Free-newline x y, has_prefix-before p (c ∷ x) y 10 ((omega arith), line))

  Without-Free : (s : Text) → Without b'<' s → Free s
  unfolding contains has_prefix
  Without-Free [] h = refl
  Without-Free (c ∷ s) (h, hs) = ground (arith, Without-Free s hs)

  -- In front of a text without the pattern, a text with no "<" brings none.
  Without-Free_append : (x y : Text) → Without b'<' x → Free y → Free (x ++ y)
  unfolding contains has_prefix
  Without-Free_append [] y h k = k
  Without-Free_append (c ∷ x) y (h, hs) k = ground (arith, Without-Free_append x y hs k)

  module _
      (caught : (s : Text)
        → has_prefix p s ≡ true
        → has_prefix opening s || has_prefix closing s ≡ true) where
    Free-plain :
        (c : ℕ) (s : Text)
        → has_prefix opening (c ∷ s) ≡ false
        → has_prefix closing (c ∷ s) ≡ false
        → Free (sanitize_from 0 s)
        → Free (c ∷ sanitize_from 0 s)
    unfolding contains has_prefix
    Free-plain c s n m h =
        ground (arith, h, caught (c ∷ s), n, m, has_prefix-sanitize_from q s bracket)

    Free-sanitize_from : (n : ℕ) (s : Text) → Free (sanitize_from n s)
    unfolding contains sanitize_from has_prefix
    Free-sanitize_from n [] = refl
    Free-sanitize_from (suc n) (c ∷ s) = Free-sanitize_from n s
    Free-sanitize_from zero (c ∷ s) =
        let open_tag =
          Without-Free_append (text "[blocked]") (sanitize_from 18 s) Without-blocked
            (Free-sanitize_from 18 s) in
        let close_tag =
          Without-Free_append (text "[blocked]") (sanitize_from 19 s) Without-blocked
            (Free-sanitize_from 19 s) in
        elim (Bool-cases (has_prefix opening (c ∷ s))) [
          | inl y ↦ rw y open_tag
          | inr n ↦ rw n (elim (Bool-cases (has_prefix closing (c ∷ s))) [
            | inl y ↦ rw y close_tag
            | inr m ↦ rw m (Free-plain c s n m (Free-sanitize_from 0 s))
          ])
        ]

    pub Free-entries :
        (format : Format) (i : ℕ) (rs : List SearchResult) (y : Text)
        → ((n : ℕ) → Without b'<' (format n))
        → Free y
        → Free (entries format i rs ++ y)
    unfolding entries sanitize contains
    Free-entries format i [] y h k = k
    Free-entries format i (r ∷ rs) y h k =
        let rest = Free-entries format (i + 1) rs y h k in
        let body = sanitize (extract_text r.payload) in
        let after = Free-newline [] (entries format (i + 1) rs ++ y) refl rest in
        let long =
          Free-newline body (10 ∷ (entries format (i + 1) rs ++ y))
            (Free-sanitize_from 0 (extract_text r.payload)) after in
        let whole =
          Free-newline (label format i r) (body ++ 10 ∷ 10 ∷ (entries format (i + 1) rs ++ y))
            (Without-Free (label format i r) (Without-label format i r h)) long in
        elim (Bool-cases (is_empty body)) [
          | inl e ↦ rw e rest
          | inr m ↦
              rw (m, append_assoc-entry (label format i r) body (entries format (i + 1) rs) y) whole
        ]
