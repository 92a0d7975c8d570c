-- ===== src/Vram.antt =====
-- The estimate of GPU memory (internal/vram/calculator.go, internal/vram/nvml.go). A float64 of
-- the estimate is a number of units of 2^-58 MiB, of which each of them is a multiple, rounded as
-- Prelude/Float64.antt says.
pub mod Exact
pub mod Gpus
pub mod Lines
pub mod Printed
pub mod Readings
mod Tests
use hive_mind_fusion.Prelude.{
  float_ratio, float_add, leb_ℤ, suc, max_int, ◌%◌, ℕ, ◌+◌, ◌-◌, ◌*◌, ◌/◌, ◌^◌, leb, ltb, ◌==◌, ℤ,
  pos, negsuc, pos_part, neg_part, diff_ℤ, times_ℤ, wrap_int, decimal_ℤ, Text, text, same, is_empty,
  strip_prefix, mem_byte, to_lower, lower_byte, trim_space, Bool, ◌&&◌, List, [], ◌∷◌, ◌++◌, Option,
  none, some, if◌then◌else◌, map,
}

pub data KvCacheType : Type 0 where
  kv_f16 : KvCacheType
  kv_q8 : KvCacheType
  kv_turbo3 : KvCacheType

pub record Result : Type 0 where
  pub estimate_mib : ℤ
  pub fits_in_24gb : Bool
  pub details : Text

abbrev pub limit_mib : ℕ
limit_mib = 24 * 1024

abbrev pub draft_mib_per_n : ℕ
draft_mib_per_n = 256

-- `ParseKVCacheType`, `none` for its error.
unfoldable pub parse_kv_cache_type : Text → Option KvCacheType
unfolding same text to_lower trim_space
parse_kv_cache_type s =
    let name = to_lower (trim_space s) in
    if same name (text "f16")
    then some kv_f16
    else if same name (text "q8")
    then some kv_q8
    else if same name (text "q8_0")
    then some kv_q8
    else if same name (text "turbo3")
    then some kv_turbo3
    else none

unfoldable pub kv_type_name : KvCacheType → Text
unfolding text
kv_type_name kv_f16 = text "f16"
kv_type_name kv_q8 = text "q8"
kv_type_name kv_turbo3 = text "turbo3"

-- `2 * defaultLayers * defaultKVHeads * defaultHeadDim * fp16Bytes * ctxLen`, which wraps.
unfoldable pub kv_bytes : ℤ → ℤ
kv_bytes ctx_len = wrap_int (times_ℤ (2 * 32 * 8 * 128 * 2) ctx_len)

abbrev pub mib : ℕ
mib = 2 ^ 58

-- `kvMiB`: a byte is 2^38 units, and the float64 4.6 is 5179139571476070 / 2^50.
unfoldable pub kv_mib : KvCacheType → ℤ → ℤ
unfolding kv_bytes float_ratio
kv_mib kv_f16 ctx_len = float_ratio (times_ℤ (2 ^ 38) (kv_bytes ctx_len)) 1
kv_mib kv_q8 ctx_len = float_ratio (times_ℤ (2 ^ 38) (kv_bytes ctx_len)) 2
kv_mib kv_turbo3 ctx_len =
    float_ratio (times_ℤ (2 ^ 38 * 2 ^ 50) (kv_bytes ctx_len)) 5_179_139_571_476_070

-- `float64` of an `int` number of MiB.
unfoldable pub float_mib : ℤ → ℤ
unfolding float_ratio
float_mib n = float_ratio (times_ℤ mib n) 1

-- `float64(specDraftNMax) * draftMiBPerN`; the product is exact.
unfoldable pub draft_mib : ℤ → ℤ
unfolding float_mib
draft_mib n = times_ℤ draft_mib_per_n (float_mib n)

-- `int64` of a float64, cut towards zero; out of range it is the smallest `int64`, as on amd64.
unfoldable pub int64_of : ℤ → ℤ
int64_of (pos n) = if ltb (n / mib) (2 ^ 63) then pos (n / mib) else negsuc max_int
int64_of (negsuc n) = if leb (suc n / mib) (2 ^ 63) then diff_ℤ 0 (suc n / mib) else negsuc max_int

unfoldable pub total_mib : ℤ → ℤ → KvCacheType → ℤ → ℤ
unfolding float_mib kv_mib draft_mib float_add
total_mib file_size_mib ctx_len kv n =
    float_add (float_add (float_mib file_size_mib) (kv_mib kv ctx_len)) (draft_mib n)

-- `%.0f` of a number of units in MiB.
abbrev pub Format : Type 0
Format = ℤ → Text

abbrev pub verdict_of : Bool → Text
verdict_of fits = if fits then text "FIT" else text "NO-FIT"

unfoldable pub details_of : Format → Bool → ℤ → ℤ → KvCacheType → ℤ → ℤ → Text
unfolding text kv_type_name decimal_ℤ kv_mib int64_of draft_mib
details_of format fits file_size_mib ctx_len kv n total =
    text "["
    ++ (verdict_of fits
        ++ (text "] model="
            ++ (decimal_ℤ file_size_mib
                ++ (text "MiB kv="
                    ++ (format (kv_mib kv ctx_len)
                        ++ (text "MiB(ctx="
                            ++ (decimal_ℤ ctx_len
                                ++ (text ","
                                    ++ (kv_type_name kv
                                        ++ (text ") draft="
                                            ++ (decimal_ℤ (int64_of (draft_mib n))
                                                ++ (text "MiB(n="
                                                    ++ (decimal_ℤ n
                                                        ++ (text ") total="
                                                            ++ (decimal_ℤ total
                                                            ++ text
                                                            "MiB limit=24576MiB")))))))))))))))

unfoldable pub estimate : Format → ℤ → ℤ → KvCacheType → ℤ → Result
unfolding details_of total_mib int64_of
estimate format file_size_mib ctx_len kv n =
    let total = total_mib file_size_mib ctx_len kv n in
    let fits = leb_ℤ total (pos (limit_mib * mib)) in
    record {
      estimate_mib = int64_of total;
      fits_in_24gb = fits;
      details = details_of format fits file_size_mib ctx_len kv n (int64_of total);
    }

-- The longest prefix of bytes of a class, and the rest.
unfoldable pub span : (ℕ → Bool) → Text → Text × Text
span p [] = ([], [])
span p (c ∷ s) = let rest = span p s in if p c then (c ∷ rest.0, rest.1) else ([], c ∷ s)

abbrev pub is_digit : ℕ → Bool
is_digit c = leb b'0' c && leb c b'9'

-- `(?:_[SMLX]+L?)?` in front of a text.
unfoldable pub size_tag : Text → Text
unfolding span
size_tag [] = []
size_tag (c ∷ s) =
    let tag = span (λ d. mem_byte d (text "SMLX")) s in
    if c == b'_' then (if is_empty tag.0 then [] else b'_' ∷ tag.0) else []

-- What follows the digits: `_K` with a size, `_` with digits, or nothing.
abbrev pub digits_tag : Text → Text
digits_tag [] = []
digits_tag (c ∷ s) =
    let more = span is_digit s in
    if c == b'_' then (if is_empty more.0 then [] else b'_' ∷ more.0) else []

abbrev pub after_digits : Text → Option Text → Text
after_digits s (some rest) = text "_K" ++ size_tag rest
after_digits s none = digits_tag s

abbrev pub quant_tag : Text → Text × Text → Option Text
quant_tag s ([], rest) = none
quant_tag s (d ∷ ds, rest) =
    some (b'Q' ∷ (d ∷ ds) ++ after_digits rest (strip_prefix (text "_K") rest))

abbrev pub some_if : Text → Option Text → Option Text
some_if tag none = none
some_if tag (some rest) = some tag

abbrev pub or_else : Option Text → Option Text → Option Text
or_else none o = o
or_else (some t) o = some t

-- The match of `quantRe` at the start of a text in capitals.
unfoldable pub quant_at : Text → Option Text
unfolding strip_prefix span size_tag text
quant_at [] = none
quant_at (c ∷ s) =
    let floats =
      or_else (some_if (text "BF16") (strip_prefix (text "BF16") (c ∷ s)))
        (some_if (text "F16") (strip_prefix (text "F16") (c ∷ s))) in
    let tag = quant_tag s (span is_digit s) in if c == b'Q' then tag else floats

abbrev pub found_or : Text → Option Text → Text
found_or rest none = rest
found_or rest (some tag) = tag

-- `FindString`: the leftmost match, "" if there is none.
unfoldable pub find_quant : Text → Text
unfolding quant_at
find_quant [] = []
find_quant (c ∷ s) = let rest = find_quant s in found_or rest (quant_at (c ∷ s))

abbrev pub upper_byte : ℕ → ℕ
upper_byte c = if leb b'a' c && leb c b'z' then c - 32 else c

unfoldable pub parse_quant : Text → Text
unfolding find_quant
parse_quant filename = find_quant (map upper_byte filename)
