-- ===== src/Fusion/Templates.antt =====
-- Rendering a prompt template (internal/fusion/transforms.go, `renderTemplate`).
use hive_mind_fusion.Prelude.{
  text_or_empty, ℕ, Text, Map, lookup, true, false, [], ◌∷◌, ◌++◌, append_assoc, append-nil, All,
  ◌≡◌, ◌≢◌, refl, ap, ◌∙◌, arith,
}
use hive_mind_fusion.Fusion.Transforms.{
  is_word, outside, inside, scan_byte, render_from, render_template,
}

module _ (subs : Map Text) where
  render_from-plain :
      (pre s : Text)
      → All (λ (c : ℕ). c ≢ b'{') pre
      → render_from subs outside (pre ++ s) ≡ pre ++ render_from subs outside s
  unfolding render_from scan_byte
  render_from-plain [] s h = refl
  render_from-plain (c ∷ pre) s (h, hs) = ground (arith, render_from-plain pre s hs)

  render_from-word :
      (acc : Text) (c : ℕ) (s : Text)
      → is_word c ≡ true
      → render_from subs (inside acc) (c ∷ s) ≡ render_from subs (inside (acc ++ c ∷ [])) s
  unfolding render_from scan_byte
  render_from-word acc c s h = ground arith

  render_from-name :
      (acc name s : Text)
      → All (λ (c : ℕ). is_word c ≡ true) name
      → render_from subs (inside acc) (name ++ s) ≡ render_from subs (inside (acc ++ name)) s
  render_from-name acc [] s h = rw append-nil refl
  render_from-name acc (c ∷ name) s (h, hs) =
      render_from-word acc c (name ++ s) h
      ∙ render_from-name (acc ++ c ∷ []) name s hs
      ∙ ap (λ (l : Text). render_from subs (inside l) s) (append_assoc acc (c ∷ []) name)

  render_from-open :
      (s : Text) → render_from subs outside (b'{' ∷ s) ≡ render_from subs (inside []) s
  unfolding render_from scan_byte
  render_from-open s = refl

  close-not-word : is_word b'}' ≡ false
  unfolding is_word
  close-not-word = refl

  render_from-close :
      (name s : Text)
      → name ≢ []
      → render_from subs (inside name) (b'}' ∷ s)
        ≡ text_or_empty (lookup name subs) ++ render_from subs outside s
  unfolding render_from scan_byte
  render_from-close name s h = ground (arith, close-not-word)

  -- A placeholder, a name of word characters in braces behind a text with no "{", is replaced by its
  -- substitution, or by nothing where there is none. The rest is rendered on its own: what was put in
  -- is not searched for placeholders again.
  render_template-placeholder :
      (pre name rest : Text)
      → All (λ (c : ℕ). c ≢ b'{') pre
      → All (λ (c : ℕ). is_word c ≡ true) name
      → name ≢ []
      → render_template (pre ++ b'{' ∷ (name ++ b'}' ∷ rest)) subs
        ≡ pre ++ (text_or_empty (lookup name subs) ++ render_template rest subs)
  unfolding render_template
  render_template-placeholder pre name rest plain words some_name =
      render_from-plain pre (b'{' ∷ (name ++ b'}' ∷ rest)) plain
      ∙ ap (λ (l : Text). pre ++ l)
          (render_from-open (name ++ b'}' ∷ rest)
            ∙ render_from-name [] name (b'}' ∷ rest) words
            ∙ render_from-close name rest some_name)
