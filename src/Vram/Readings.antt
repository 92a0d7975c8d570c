-- ===== src/Vram/Readings.antt =====
-- The output of nvidia-smi and its parser (internal/vram/nvml.go, `parseNvidiaSMIOutput`).
use hive_mind_fusion.Prelude.{
  ℕ, suc, split, decimal, List, [], ◌∷◌, ◌++◌, append_assoc, map, All, ◌≡◌, refl,
}
use hive_mind_fusion.Numerals.{All-decimal, parse_int-decimal, trim_space-digits}
use hive_mind_fusion.Vram.Gpus.{gpus, gpu_line, parse_lines, parse_nvidia_smi_output}
use hive_mind_fusion.Vram.Printed.{
  IsLine, printed, split-joined, trim_space-printed, trim_space-line,
}
use hive_mind_fusion.Vram.Lines.{
  Reading, IsSmall, csv_line, indexed, Without-csv_line, trim_space-number, split-csv_line,
  is_empty-csv_line,
}

gpu_line-csv_line :
    (i : ℕ) (r : Reading) (rs : List Reading)
    → IsSmall r
    → gpu_line i (csv_line r) (split 44 (csv_line r)) (gpus (indexed (suc i) rs))
      ≡ gpus (indexed i (r ∷ rs))
unfolding indexed
gpu_line-csv_line i r rs (used, free, total) =
    rw
      (
        split-csv_line r,
        trim_space-digits (decimal r.used) (All-decimal r.used),
        trim_space-number r.free,
        trim_space-number r.total,
        parse_int-decimal r.used used,
        parse_int-decimal r.free free,
        parse_int-decimal r.total total,
      )
      refl

pub IsLine-csv_line : (r : Reading) → IsLine (csv_line r)
IsLine-csv_line r = record {
  first = r.used;
  rear = 44 ∷ 32 ∷ (decimal r.free ++ (44 ∷ 32 ∷ decimal r.total));
  last = r.total;
  front = decimal r.used ++ (44 ∷ 32 ∷ (decimal r.free ++ (44 ∷ 32 ∷ [])));
  starts = refl;
  ends = simp append_assoc;
  one_line = Without-csv_line r;
}

parse_lines-csv_line :
    (i : ℕ) (rs : List Reading)
    → All IsSmall rs
    → parse_lines i (map csv_line rs) ≡ gpus (indexed i rs)
unfolding parse_lines indexed
parse_lines-csv_line i [] h = refl
parse_lines-csv_line i (r ∷ rs) (h, hs) =
    rw
      (
        trim_space-line csv_line IsLine-csv_line r,
        is_empty-csv_line r,
        parse_lines-csv_line (suc i) rs hs,
      )
      (gpu_line-csv_line i r rs h)

-- For at least one GPU and readings below 2^63: the parser reads the lines that nvidia-smi prints as the readings, in order and
-- numbered from 0.
pub parse_nvidia_smi_output-csv :
    (r : Reading) (rs : List Reading)
    → IsSmall r
    → All IsSmall rs
    → parse_nvidia_smi_output (printed csv_line (r ∷ rs)) ≡ gpus (indexed 0 (r ∷ rs))
unfolding parse_nvidia_smi_output indexed
parse_nvidia_smi_output-csv r rs h hs =
    rw
      (
        trim_space-printed csv_line IsLine-csv_line r rs,
        split-joined csv_line IsLine-csv_line r rs,
        parse_lines-csv_line 0 (r ∷ rs) (h, hs),
      )
      refl
