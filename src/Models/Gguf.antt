-- ===== src/Models/Gguf.antt =====
-- The reader of GGUF headers (internal/models/gguf.go). A file is the list of its bytes; an error of
-- the reader carries no text here. `%.4g` of a float's bit pattern is an argument.
pub mod Taking
pub mod Totality
pub mod Writer
pub mod RoundTrip
pub mod Headers
mod Tests
use hive_mind_fusion.Prelude.{
  ℕ, zero, suc, ◌+◌, ◌-◌, ◌*◌, ◌^◌, ltb, leb, ◌==◌, Text, text, same, is_empty, decimal, Map,
  insert, Bool, ◌||◌, List, [], ◌∷◌, Option, none, some, if◌then◌else◌, length,
}

-- The value that was read and the bytes behind it, an error, or (no value of the program) too little
-- fuel for the nesting of arrays.
pub data Read {ℓ} (A : Type ℓ) : Type ℓ where
  ok : A → Text → Read A
  err : Read A
  stuck : Read A

infixl 5 ◌>>=◌
abbrev pub ◌>>=◌ {ℓ κ} : {A : Type ℓ} {B : Type κ} → Read A → (A → Text → Read B) → Read B
ok a s >>= f = f a s
err >>= f = err
stuck >>= f = stuck

-- `binary.Read` in little-endian order, of this many bytes.
unfoldable pub read_uint : ℕ → Text → Read ℕ
read_uint zero s = ok 0 s
read_uint (suc w) [] = err
read_uint (suc w) (b ∷ s) = read_uint w s >>= λ n rest. ok (b + 256 * n) rest

-- `io.ReadFull` of a buffer of this length.
unfoldable pub read_full : ℕ → Text → Read Text
read_full zero s = ok [] s
read_full (suc n) [] = err
read_full (suc n) (b ∷ s) = read_full n s >>= λ bytes rest. ok (b ∷ bytes) rest

abbrev pub max_string : ℕ
max_string = 2 ^ 20

unfoldable pub read_string : Text → Read Text
read_string s = read_uint 8 s >>= λ n rest. if ltb max_string n then err else read_full n rest

-- The types of fixed size, with their number of bytes.
pub data Fixed : Type 0 where
  uint8 int8 uint16 int16 uint32 int32 float32 bool uint64 int64 float64 : Fixed

abbrev pub width : Fixed → ℕ
width uint8 = 1
width int8 = 1
width uint16 = 2
width int16 = 2
width uint32 = 4
width int32 = 4
width float32 = 4
width bool = 1
width uint64 = 8
width int64 = 8
width float64 = 8

pub data ValueType : Type 0 where
  fixed : Fixed → ValueType
  string array : ValueType

unfoldable pub type_of : ℕ → Option ValueType
type_of tag =
    if tag == 0
    then some (fixed uint8)
    else if tag == 1
    then some (fixed int8)
    else if tag == 2
    then some (fixed uint16)
    else if tag == 3
    then some (fixed int16)
    else if tag == 4
    then some (fixed uint32)
    else if tag == 5
    then some (fixed int32)
    else if tag == 6
    then some (fixed float32)
    else if tag == 7
    then some (fixed bool)
    else if tag == 8
    then some string
    else if tag == 9
    then some array
    else if tag == 10
    then some (fixed uint64)
    else if tag == 11
    then some (fixed int64)
    else if tag == 12
    then some (fixed float64)
    else none

-- `%d` of a signed word by its bit pattern, with half of the word's range.
abbrev pub signed_decimal : ℕ → ℕ → Text
signed_decimal half n = if ltb n half then decimal n else b'-' ∷ decimal (half + half - n)

-- `%.4g` of a float, from its bit pattern.
pub record Floats : Type 0 where
  pub format32 : ℕ → Text
  pub format64 : ℕ → Text

-- The text of a value of fixed size. For one byte the source formats the variable before the read
-- fills it, so the text is "0".
unfoldable pub show_fixed : Floats → Fixed → ℕ → Text
show_fixed p uint8 n = text "0"
show_fixed p int8 n = text "0"
show_fixed p uint16 n = decimal n
show_fixed p int16 n = signed_decimal (2 ^ 15) n
show_fixed p uint32 n = decimal n
show_fixed p int32 n = signed_decimal (2 ^ 31) n
show_fixed p float32 n = p.format32 n
show_fixed p bool n = if n == 0 then text "false" else text "true"
show_fixed p uint64 n = decimal n
show_fixed p int64 n = signed_decimal (2 ^ 63) n
show_fixed p float64 n = p.format64 n

-- The loop of `ggufSkipArray`.
unfoldable pub skip_items : (Text → Read Text) → ℕ → Text → Read (Unit {0})
skip_items read zero s = ok tt s
skip_items read (suc n) s = read s >>= λ value rest. skip_items read n rest

-- One round of the loop over the pairs, with the rounds after it.
abbrev pub pairs_step :
    (Text → Map Text → Option (Map Text)) → Map Text → Read (Text × Text) → Option (Map Text)
pairs_step next meta (ok (key, value) rest) =
    next rest (if is_empty value then meta else insert key value meta)
pairs_step next meta err = some meta
pairs_step next meta stuck = none

-- `ggufSkipArray`, with the reader of one element of a type.
unfoldable pub skip_array : (Option ValueType → Text → Read Text) → Text → Read (Unit {0})
skip_array read s = read_uint 4 s >>= λ tag rest.
    read_uint 8 rest >>= λ count rest'. skip_items (read (type_of tag)) count rest'

module _ (p : Floats) where
  -- `ggufReadValueByType`, with fuel for the nesting of arrays; `none` is an unknown type.
  unfoldable pub read_by_type : ℕ → Option ValueType → Text → Read Text
  read_by_type fuel none s = err
  read_by_type fuel (some (fixed t)) s =
      read_uint (width t) s >>= λ n rest. ok (show_fixed p t n) rest
  read_by_type fuel (some string) s = read_string s
  read_by_type zero (some array) s = stuck
  read_by_type (suc fuel) (some array) s =
      skip_array (λ t r. read_by_type fuel t r) s >>= λ u rest. ok [] rest

  -- A level of nesting takes 12 bytes, so the length of the input is fuel enough.
  unfoldable pub read_value : Text → Read Text
  read_value s = read_uint 4 s >>= λ tag rest. read_by_type (suc (length rest)) (type_of tag) rest

  -- A key and its value.
  unfoldable pub read_pair : Text → Read (Text × Text)
  read_pair s =
      read_string s >>= λ key rest. read_value rest >>= λ value rest'. ok (key, value) rest'

  -- The loop over the pairs from this one on: it stops without an error at the first that cannot be
  -- read. `none` is the value `stuck` of the reader.
  unfoldable pub read_pairs : ℕ → Text → Map Text → Option (Map Text)
  read_pairs zero s meta = some meta
  read_pairs (suc n) s meta = pairs_step (λ rest m. read_pairs n rest m) meta (read_pair s)

pub record GgufHeader : Type 0 where
  pub version : ℕ
  pub tensor_count : ℕ
  pub kv_count : ℕ
  pub metadata : Map Text

-- The results of `ReadGGUFHeader` on the bytes of a file that could be opened; `out_of_fuel` is none
-- of the program.
pub data HeaderResult : Type 0 where
  no_magic no_version no_counts out_of_fuel : HeaderResult
  not_gguf : Text → HeaderResult
  unsupported : ℕ → HeaderResult
  header : GgufHeader → HeaderResult

abbrev pub header_of : ℕ → ℕ → ℕ → Option (Map Text) → HeaderResult
header_of version tensors kvs none = out_of_fuel
header_of version tensors kvs (some meta) =
    header (record { version = version; tensor_count = tensors; kv_count = kvs; metadata = meta })

unfoldable pub read_counts : Text → Read (ℕ × ℕ)
read_counts s =
    read_uint 8 s >>= λ tensors rest. read_uint 8 rest >>= λ kvs rest'. ok (tensors, kvs) rest'

module _ (p : Floats) where
  abbrev pub after_counts : ℕ → Read (ℕ × ℕ) → HeaderResult
  after_counts version (ok (tensors, kvs) s) = header_of version tensors kvs (read_pairs p kvs s [])
  after_counts version err = no_counts
  after_counts version stuck = out_of_fuel

  abbrev pub after_version : Read ℕ → HeaderResult
  after_version (ok version s) =
      if ltb version 2 || ltb 3 version
      then unsupported version
      else after_counts version (read_counts s)
  after_version err = no_version
  after_version stuck = out_of_fuel

  abbrev pub after_magic : Read Text → HeaderResult
  after_magic (ok magic s) =
      if same magic (text "GGUF") then after_version (read_uint 4 s) else not_gguf magic
  after_magic err = no_magic
  after_magic stuck = out_of_fuel

  unfoldable pub read_gguf_header : Text → HeaderResult
  read_gguf_header s = after_magic (read_full 4 s)
