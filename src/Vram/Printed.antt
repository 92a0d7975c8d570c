-- ===== src/Vram/Printed.antt =====
-- Lines that begin and end with a number, as nvidia-smi prints them (for internal/vram/nvml.go and
-- internal/gateway/health.go): how the output is trimmed and split.
use hive_mind_fusion.Prelude.{
  ℕ, Text, spaces, trim_left, trim_right, trim_space, split, decimal, List, [], ◌∷◌, ◌++◌,
  append_assoc, append-nil, map, All, ◌≡◌, ◌≢◌, sym, refl, ap, ◌∙◌,
}
use hive_mind_fusion.Numerals.{All-decimal, is_empty-decimal}
use hive_mind_fusion.Vram.Lines.{
  trim_left-digits_append, trim_right-digits_append, trim_right-newline, split-before, split-whole,
}

-- The lines, with a newline behind each.
unfoldable pub printed : {A : Type 0} → (A → Text) → List A → Text
printed line [] = []
printed line (r ∷ rs) = line r ++ 10 ∷ printed line rs

-- A line as a number and a rest, and as a rest and a number, with no newline in it.
pub record IsLine (s : Text) : Type 0 where
  pub first : ℕ
  pub rear : Text
  pub last : ℕ
  pub front : Text
  pub starts : s ≡ decimal first ++ rear
  pub ends : s ≡ front ++ decimal last
  pub one_line : All (λ (c : ℕ). c ≢ 10) s

module _ {A : Type 0} (line : A → Text) (is : (r : A) → IsLine (line r)) where
  -- The lines without the last newline.
  unfoldable pub joined : A → List A → Text
  joined r [] = line r
  joined r (q ∷ rs) = line r ++ 10 ∷ joined q rs

  printed-joined : (r : A) (rs : List A) → printed line (r ∷ rs) ≡ joined r rs ++ 10 ∷ []
  unfolding printed joined
  printed-joined r [] = refl
  printed-joined r (q ∷ rs) =
      ap (λ t. line r ++ 10 ∷ t) (printed-joined q rs)
      ∙ sym (append_assoc (line r) (10 ∷ joined q rs) (10 ∷ []))

  pub split-joined : (r : A) (rs : List A) → split 10 (joined r rs) ≡ line r ∷ map line rs
  unfolding joined
  split-joined r [] = split-whole 10 (line r) (is r).one_line
  split-joined r (q ∷ rs) =
      split-before 10 (line r) (joined q rs) (is r).one_line
      ∙ ap (λ ls. line r ∷ ls) (split-joined q rs)

  trim_right-joined :
      (x : Text) (r : A) (rs : List A) → trim_right spaces (x ++ joined r rs) ≡ x ++ joined r rs
  unfolding joined
  trim_right-joined x r [] =
      let l = is r in
      let parts : x ++ line r ≡ (x ++ l.front) ++ decimal l.last =
        ap (λ t. x ++ t) l.ends ∙ sym (append_assoc x l.front (decimal l.last)) in
      ap (trim_right spaces) parts
      ∙ (trim_right-digits_append (x ++ l.front) (decimal l.last) (All-decimal l.last)
            (is_empty-decimal l.last)
          ∙ sym parts)
  trim_right-joined x r (q ∷ rs) =
      let parts : x ++ (line r ++ 10 ∷ joined q rs) ≡ (x ++ (line r ++ 10 ∷ [])) ++ joined q rs =
        simp append_assoc in
      ap (trim_right spaces) parts ∙ (trim_right-joined (x ++ (line r ++ 10 ∷ [])) q rs ∙ sym parts)

  -- A text that goes on behind a line is not trimmed on the left.
  trim_left-line : (r : A) (x : Text) → trim_left spaces (line r ++ x) ≡ line r ++ x
  trim_left-line r x =
      let l = is r in
      let parts : line r ++ x ≡ decimal l.first ++ (l.rear ++ x) =
        ap (λ t. t ++ x) l.starts ∙ append_assoc (decimal l.first) l.rear x in
      ap (trim_left spaces) parts
      ∙ (trim_left-digits_append (decimal l.first) (l.rear ++ x) (All-decimal l.first)
            (is_empty-decimal l.first)
          ∙ sym parts)

  trim_left-joined : (r : A) (rs : List A) → trim_left spaces (joined r rs) ≡ joined r rs
  unfolding joined
  trim_left-joined r [] =
      ap (trim_left spaces) (sym (append-nil (line r)))
      ∙ (trim_left-line r [] ∙ append-nil (line r))
  trim_left-joined r (q ∷ rs) = trim_left-line r (10 ∷ joined q rs)

  pub trim_space-printed : (r : A) (rs : List A) → trim_space (printed line (r ∷ rs)) ≡ joined r rs
  unfolding trim_space
  trim_space-printed r rs =
      ap (λ t. trim_left spaces (trim_right spaces t)) (printed-joined r rs)
      ∙ (ap (trim_left spaces) (trim_right-newline (joined r rs) ∙ trim_right-joined [] r rs)
          ∙ trim_left-joined r rs)

  -- A line alone is trimmed to itself.
  pub trim_space-line : (r : A) → trim_space (line r) ≡ line r
  unfolding trim_space joined
  trim_space-line r = ap (trim_left spaces) (trim_right-joined [] r []) ∙ trim_left-joined r []
