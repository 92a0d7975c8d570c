-- ===== src/Vram/Tests.antt =====
-- Concrete estimates and quantization tags (internal/vram).
use hive_mind_fusion.Prelude.{leb, ◌*◌, ◌/◌, pos, text, true, false, [], ◌∷◌, ◌≡◌, refl, arith}
use hive_mind_fusion.Vram.{Format, estimate, kv_q8, kv_f16, kv_turbo3, parse_quant}
use hive_mind_fusion.Vram.Exact.{parts, estimate-exact}
use hive_mind_fusion.Vram.Lines.{Reading, csv_line, indexed}
use hive_mind_fusion.Vram.Printed.{printed}
use hive_mind_fusion.Vram.Readings.{parse_nvidia_smi_output-csv}
use hive_mind_fusion.Vram.Gpus.{parse_nvidia_smi_output, gpus}

abbrev no_digits : Format
no_digits z = []

estimate-exact_example :
    ((estimate no_digits (pos 16_000) (pos 8_192) kv_q8 (pos 2)).fits_in_24gb
      ≡ leb (parts 16_000 1 8_192 2) (16 * 24_576))
    × ((estimate no_digits (pos 16_000) (pos 8_192) kv_q8 (pos 2)).estimate_mib
        ≡ pos (parts 16_000 1 8_192 2 / 16))
estimate-exact_example =
    estimate-exact no_digits kv_q8 1 16_000 8_192 2 refl (omega arith) (omega arith) (omega arith)

estimate-sample :
    (estimate no_digits (pos 16_000) (pos 8_192) kv_q8 (pos 2)).estimate_mib ≡ pos 17_024
unfolding estimate
estimate-sample = refl

-- In whole numbers this estimate is the limit of 24576 MiB itself; the rounding takes it above.
estimate-rounds :
    ((estimate no_digits (pos 1_021) (pos 866_824) kv_turbo3 (pos 0)).fits_in_24gb ≡ false)
    × ((estimate no_digits (pos 1_021) (pos 866_824) kv_turbo3 (pos 0)).estimate_mib ≡ pos 24_576)
unfolding estimate
estimate-rounds = (refl, refl)

-- The product of the context wraps to a negative number.
estimate-wraps :
    (estimate no_digits (pos 30_000) (pos (70_368_744_177_664)) kv_f16 (pos 0)).fits_in_24gb ≡ true
unfolding estimate
estimate-wraps = refl

parse_quant-samples :
    (parse_quant (text "Qwen3.6-27B-Q4_K_XL.gguf") ≡ text "Q4_K_XL")
    × (parse_quant (text "m-q8_0.gguf") ≡ text "Q8_0")
    × (parse_quant (text "m-bf16.gguf") ≡ text "BF16")
    × (parse_quant (text "plain.gguf") ≡ [])
unfolding parse_quant text
parse_quant-samples = (refl, refl, refl, refl)

parse_nvidia_smi_output-sample :
    parse_nvidia_smi_output (text "100, 24000, 24576")
    ≡ gpus (
        record { index = 0; used_mib = pos 100; free_mib = pos 24_000; total_mib = pos 24_576 }
        ∷ [])
unfolding parse_nvidia_smi_output text
parse_nvidia_smi_output-sample = refl

abbrev reading : Reading
reading = record { used = 100; free = 24_000; total = 24_576 }

parse_nvidia_smi_output-csv_example :
    parse_nvidia_smi_output (printed csv_line (reading ∷ reading ∷ []))
    ≡ gpus (indexed 0 (reading ∷ reading ∷ []))
parse_nvidia_smi_output-csv_example =
    parse_nvidia_smi_output-csv reading (reading ∷ []) (omega arith, omega arith, omega arith)
      ((omega arith, omega arith, omega arith), tt)
