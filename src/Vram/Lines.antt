-- ===== src/Vram/Lines.antt =====
-- The lines that nvidia-smi prints, and how they are trimmed and split (internal/vram/nvml.go,
-- `parseNvidiaSMIOutput`).
use mathlib.Core.List.{reverse-cons, reverse-append, reverse-reverse}
use hive_mind_fusion.Prelude.{
  ℕ, suc, ◌^◌, ◌<◌, pos, Text, is_empty, spaces, trim_left, trim_right, trim_space, split, decimal,
  false, List, [], ◌∷◌, ◌++◌, append-nil, reverse, All, All-append, ◌≡◌, ◌≢◌, refl, sym, ap, ◌∙◌,
  arith,
}
use hive_mind_fusion.Numerals.{IsDigit, All-decimal, is_empty-decimal, All-reverse}
use hive_mind_fusion.Vram.Gpus.{GpuInfo}

-- What nvidia-smi prints for one GPU.
pub record Reading : Type 0 where
  pub used : ℕ
  pub free : ℕ
  pub total : ℕ

abbrev pub IsSmall : Reading → Type 0
IsSmall r = (r.used < 2 ^ 63) × (r.free < 2 ^ 63) × (r.total < 2 ^ 63)

abbrev pub csv_line : Reading → Text
csv_line r = decimal r.used ++ (44 ∷ 32 ∷ (decimal r.free ++ (44 ∷ 32 ∷ decimal r.total)))

-- The readings under their positions.
unfoldable pub indexed : ℕ → List Reading → List GpuInfo
indexed i [] = []
indexed i (r ∷ rs) =
    record { index = i; used_mib = pos r.used; free_mib = pos r.free; total_mib = pos r.total }
    ∷ indexed (suc i) rs

-- In front of a text, digits stop the trimming on the left.
pub trim_left-digits_append :
    (d s : Text) → All IsDigit d → is_empty d ≡ false → trim_left spaces (d ++ s) ≡ d ++ s
unfolding trim_left
trim_left-digits_append [] s h e = absurd (ground arith)
trim_left-digits_append (c ∷ d) s (h, hs) e = ground (arith, h)

pub is_empty-append_cons : (x : Text) (c : ℕ) (y : Text) → is_empty (x ++ c ∷ y) ≡ false
is_empty-append_cons [] c y = refl
is_empty-append_cons (d ∷ x) c y = refl

pub is_empty-reverse : (d : Text) → is_empty d ≡ false → is_empty (reverse d) ≡ false
is_empty-reverse [] h = h
is_empty-reverse (c ∷ d) h = ap is_empty (reverse-cons c d) ∙ is_empty-append_cons (reverse d) c []

-- A text that begins and ends with digits, perhaps with a newline behind it, is trimmed to itself.
pub trim_right-digits_append :
    (x d : Text) → All IsDigit d → is_empty d ≡ false → trim_right spaces (x ++ d) ≡ x ++ d
unfolding trim_right
trim_right-digits_append x d h e =
    ap (λ t. reverse (trim_left spaces t)) (reverse-append x d)
    ∙ (ap reverse
          (trim_left-digits_append (reverse d) (reverse x) (All-reverse d h) (is_empty-reverse d e))
        ∙ (ap reverse (sym (reverse-append x d)) ∙ reverse-reverse (x ++ d)))

pub trim_right-newline : (s : Text) → trim_right spaces (s ++ 10 ∷ []) ≡ trim_right spaces s
unfolding trim_right trim_left
trim_right-newline s = ap (λ t. reverse (trim_left spaces t)) (reverse-append s (10 ∷ []))

pub split-before :
    (sep : ℕ) (x y : Text) → All (λ (c : ℕ). c ≢ sep) x → split sep (x ++ sep ∷ y) ≡ x ∷ split sep y
unfolding split
split-before sep [] y h = ground arith
split-before sep (c ∷ x) y (h, hs) = rw (split-before sep x y hs) (ground (arith, h))

pub split-whole : (sep : ℕ) (x : Text) → All (λ (c : ℕ). c ≢ sep) x → split sep x ≡ x ∷ []
unfolding split
split-whole sep [] h = refl
split-whole sep (c ∷ x) (h, hs) = rw (split-whole sep x hs) (ground (arith, h))

-- No byte of a line is a newline, and no digit is a comma.
pub Without-digits : (sep : ℕ) (d : Text) → sep < 48 → All IsDigit d → All (λ (c : ℕ). c ≢ sep) d
Without-digits sep [] h all = tt
Without-digits sep (c ∷ d) h (digit, all) = (ground (arith, digit, h), Without-digits sep d h all)

pub Without-csv_line : (r : Reading) → All (λ (c : ℕ). c ≢ 10) (csv_line r)
Without-csv_line r =
    let digits = λ (n : ℕ). Without-digits 10 (decimal n) (omega arith) (All-decimal n) in
    All-append (λ (c : ℕ). c ≢ 10) (decimal r.used)
      (44 ∷ 32 ∷ (decimal r.free ++ (44 ∷ 32 ∷ decimal r.total))) (digits r.used)
      (
        omega arith,
        (
          omega arith,
          All-append (λ (c : ℕ). c ≢ 10) (decimal r.free) (44 ∷ 32 ∷ decimal r.total)
              (digits r.free) (omega arith, (omega arith, digits r.total)),
        ),
      )

pub trim_left-digits_eq : (n : ℕ) → trim_left spaces (decimal n) ≡ decimal n
trim_left-digits_eq n =
    ap (trim_left spaces) (sym (append-nil (decimal n)))
    ∙ (trim_left-digits_append (decimal n) [] (All-decimal n) (is_empty-decimal n)
        ∙ append-nil (decimal n))

-- A number behind a space.
pub trim_space-number : (n : ℕ) → trim_space (32 ∷ decimal n) ≡ decimal n
unfolding trim_space trim_left
trim_space-number n =
    ap (trim_left spaces)
      (trim_right-digits_append (32 ∷ []) (decimal n) (All-decimal n) (is_empty-decimal n))
    ∙ trim_left-digits_eq n

pub split-csv_line :
    (r : Reading)
    → split 44 (csv_line r) ≡ decimal r.used ∷ (32 ∷ decimal r.free) ∷ (32 ∷ decimal r.total) ∷ []
split-csv_line r =
    let digits = λ (n : ℕ). Without-digits 44 (decimal n) (omega arith) (All-decimal n) in
    split-before 44 (decimal r.used) (32 ∷ (decimal r.free ++ (44 ∷ 32 ∷ decimal r.total)))
      (digits r.used)
    ∙ ap (λ ls. decimal r.used ∷ ls)
        (split-before 44 (32 ∷ decimal r.free) (32 ∷ decimal r.total) (omega arith, digits r.free)
          ∙ ap (λ ls. (32 ∷ decimal r.free) ∷ ls)
              (split-whole 44 (32 ∷ decimal r.total) (omega arith, digits r.total)))

pub is_empty-csv_line : (r : Reading) → is_empty (csv_line r) ≡ false
is_empty-csv_line r =
    is_empty-append_cons (decimal r.used) 44 (32 ∷ (decimal r.free ++ (44 ∷ 32 ∷ decimal r.total)))
