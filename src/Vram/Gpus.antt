-- ===== src/Vram/Gpus.antt =====
-- The memory of the GPUs from the output of nvidia-smi (internal/vram/nvml.go). `strconv.ParseInt` gives
-- `none` for an error.
use hive_mind_fusion.Prelude.{
  parse_int, ℕ, suc, ℤ, Text, is_empty, trim_space, split, List, [], ◌∷◌, Option, none, some,
  if◌then◌else◌,
}

pub record GpuInfo : Type 0 where
  pub index : ℕ
  pub used_mib : ℤ
  pub free_mib : ℤ
  pub total_mib : ℤ

pub data SmiError : Type 0 where
  unexpected_line : ℕ → Text → SmiError
  parse_used : SmiError
  parse_free : SmiError
  parse_total : SmiError
  no_gpus : SmiError
  nvidia_smi_failed : SmiError

pub data Parsed : Type 0 where
  gpus : List GpuInfo → Parsed
  failed : SmiError → Parsed

abbrev pub add_gpu : GpuInfo → Parsed → Parsed
add_gpu g (gpus gs) = gpus (g ∷ gs)
add_gpu g (failed e) = failed e

abbrev pub gpu_of : ℕ → Option ℤ → Option ℤ → Option ℤ → Parsed → Parsed
gpu_of i none free total rest = failed parse_used
gpu_of i (some used) none total rest = failed parse_free
gpu_of i (some used) (some free) none rest = failed parse_total
gpu_of i (some used) (some free) (some total) rest =
    add_gpu (record { index = i; used_mib = used; free_mib = free; total_mib = total }) rest

-- A line that is not empty, by its parts, with what the lines behind it give.
abbrev pub gpu_line : ℕ → Text → List Text → Parsed → Parsed
gpu_line i line (a ∷ b ∷ c ∷ []) rest =
    gpu_of i (parse_int (trim_space a)) (parse_int (trim_space b)) (parse_int (trim_space c)) rest
gpu_line i line _ rest = failed (unexpected_line i line)

unfoldable pub parse_lines : ℕ → List Text → Parsed
unfolding parse_int trim_space split
parse_lines i [] = gpus []
parse_lines i (l ∷ ls) =
    let rest = parse_lines (suc i) ls in
    let line = trim_space l in
    if is_empty line then rest else gpu_line i line (split b',' line) rest

abbrev pub some_gpus : Parsed → Parsed
some_gpus (gpus []) = failed no_gpus
some_gpus (gpus (g ∷ gs)) = gpus (g ∷ gs)
some_gpus (failed e) = failed e

unfoldable pub parse_nvidia_smi_output : Text → Parsed
unfolding parse_lines trim_space split
parse_nvidia_smi_output s = some_gpus (parse_lines 0 (split 10 (trim_space s)))

-- `none` for a command that failed.
unfoldable pub query_gpus : Option Text → Parsed
unfolding parse_nvidia_smi_output
query_gpus none = failed nvidia_smi_failed
query_gpus (some out) = parse_nvidia_smi_output out
