-- ===== src/Health/Gpu.antt =====
-- The GPU memory in the health report (internal/gateway/health.go, `queryVRAM`). The output of nvidia-smi is an
-- argument, `none` for a command that failed; `strconv.Atoi` gives `none` for an error.
use hive_mind_fusion.Prelude.{
  ℕ, ◌^◌, ◌<◌, ◌==◌, ◌&&◌, ℤ, pos, parse_int, Text, trim_space, split, add_to_head, decimal, true,
  false, List, [], ◌∷◌, ◌++◌, append_assoc, Option, none, some, All, All-append, ◌≡◌, ◌≢◌, refl, ap,
  ◌∙◌, arith,
}
use hive_mind_fusion.Numerals.{All-decimal, trim_space-digits, parse_int-decimal}
use hive_mind_fusion.Vram.Lines.{Without-digits}
use hive_mind_fusion.Vram.Printed.{IsLine, printed, split-joined, trim_space-printed}

pub record VramInfo : Type 0 where
  pub used_mib : ℤ
  pub total_mib : ℤ

-- `strings.Split(s, sep)` for a separator of two bytes.
unfoldable pub split_pair : ℕ → ℕ → Text → List Text
split_pair a b [] = [] ∷ []
split_pair a b (c ∷ []) = (c ∷ []) ∷ []
split_pair a b (c ∷ d ∷ s) = elim (c == a && d == b) [
  | true ↦ [] ∷ split_pair a b s
  | false ↦ add_to_head c (split_pair a b (d ∷ s))
]

abbrev pub first_line : List Text → Text
first_line [] = []
first_line (l ∷ ls) = l

abbrev pub info_of : Option ℤ → Option ℤ → Option VramInfo
info_of (some used) (some total) = some (record { used_mib = used; total_mib = total })
info_of _ _ = none

abbrev pub info_of_parts : List Text → Option VramInfo
info_of_parts (a ∷ b ∷ []) = info_of (parse_int (trim_space a)) (parse_int (trim_space b))
info_of_parts _ = none

unfoldable pub query_vram : Option Text → Option VramInfo
query_vram none = none
query_vram (some out) = info_of_parts (split_pair 44 32 (first_line (split 10 (trim_space out))))

-- What the command prints for one GPU.
pub record Reading : Type 0 where
  pub used : ℕ
  pub total : ℕ

abbrev pub csv_line : Reading → Text
csv_line r = decimal r.used ++ (44 ∷ 32 ∷ decimal r.total)

IsLine-csv_line : (r : Reading) → IsLine (csv_line r)
IsLine-csv_line r =
    let digits = λ (n : ℕ). Without-digits 10 (decimal n) (omega arith) (All-decimal n) in
    record {
      first = r.used;
      rear = 44 ∷ 32 ∷ decimal r.total;
      last = r.total;
      front = decimal r.used ++ (44 ∷ 32 ∷ []);
      starts = refl;
      ends = simp append_assoc;
      one_line =
          All-append (λ (c : ℕ). c ≢ 10) (decimal r.used) (44 ∷ 32 ∷ decimal r.total)
            (digits r.used) (omega arith, (omega arith, digits r.total));
    }

split_pair-whole : (b : ℕ) (x : Text) → All (λ (c : ℕ). c ≢ 44) x → split_pair 44 b x ≡ x ∷ []
unfolding split_pair
split_pair-whole b [] h = refl
split_pair-whole b (c ∷ []) h = refl
split_pair-whole b (c ∷ d ∷ s) (h, hs) = ground (arith, h, split_pair-whole b (d ∷ s) hs)

split_pair-other :
    (c d : ℕ) (s : Text)
    → (c == 44) ≡ false
    → split_pair 44 32 (c ∷ d ∷ s) ≡ add_to_head c (split_pair 44 32 (d ∷ s))
unfolding split_pair
split_pair-other c d s e = rw (e, split_pair) refl

split_pair-before :
    (x y : Text)
    → All (λ (c : ℕ). c ≢ 44) x
    → split_pair 44 32 (x ++ (44 ∷ 32 ∷ y)) ≡ x ∷ split_pair 44 32 y
unfolding split_pair
split_pair-before [] y h = refl
split_pair-before (c ∷ []) y (h, hs) = ground (arith, h)
split_pair-before (c ∷ d ∷ s) y (h, hs) =
    let other : (c == 44) ≡ false = ground (arith, h) in
    split_pair-other c d (s ++ (44 ∷ 32 ∷ y)) other
    ∙ ap (add_to_head c) (split_pair-before (d ∷ s) y hs)

split_pair-csv_line :
    (r : Reading) → split_pair 44 32 (csv_line r) ≡ decimal r.used ∷ decimal r.total ∷ []
split_pair-csv_line r =
    let digits = λ (n : ℕ). Without-digits 44 (decimal n) (omega arith) (All-decimal n) in
    split_pair-before (decimal r.used) (decimal r.total) (digits r.used)
    ∙ ap (λ ls. decimal r.used ∷ ls) (split_pair-whole 32 (decimal r.total) (digits r.total))

-- Of the lines that nvidia-smi prints for at least one GPU, with values below 2^63, the report has the values of the
-- first.
pub query_vram-printed :
    (r : Reading) (rs : List Reading)
    → r.used < 2 ^ 63
    → r.total < 2 ^ 63
    → query_vram (some (printed csv_line (r ∷ rs)))
      ≡ some (record { used_mib = pos r.used; total_mib = pos r.total })
unfolding query_vram
query_vram-printed r rs used total =
    rw
      (
        trim_space-printed csv_line IsLine-csv_line r rs,
        split-joined csv_line IsLine-csv_line r rs,
        split_pair-csv_line r,
        trim_space-digits (decimal r.used) (All-decimal r.used),
        trim_space-digits (decimal r.total) (All-decimal r.total),
        parse_int-decimal r.used used,
        parse_int-decimal r.total total,
      )
      refl
