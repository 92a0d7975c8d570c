-- ===== src/Models/Gguf/Writer.antt =====
-- A writer of GGUF files, the format that internal/models/gguf.go reads.
use hive_mind_fusion.Prelude.{
  ℕ, zero, suc, ◌*◌, ◌/◌, ◌%◌, ◌≤◌, ◌<◌, max, Text, text, is_empty, Map, insert, List, [], ◌∷◌,
  ◌++◌, if◌then◌else◌, length, ◌≡◌,
}
use hive_mind_fusion.Models.Gguf.{
  max_string, Fixed, uint8, int8, uint16, int16, uint32, int32, float32, bool, uint64, int64,
  float64, width, ValueType, fixed, string, array, Floats, show_fixed,
}

-- Little-endian bytes, and the number of values of this many bytes.
unfoldable pub le_bytes : ℕ → ℕ → Text
le_bytes zero n = []
le_bytes (suc w) n = n % 256 ∷ le_bytes w (n / 256)

unfoldable pub values_of : ℕ → ℕ
values_of zero = 1
values_of (suc w) = 256 * values_of w

mutual
  -- A value of the format; the elements of an array with the tag of their type.
  pub data Value : Type 0 where
    num : Fixed → ℕ → Value
    str : Text → Value
    arr : ValueType → Values → Value

  pub data Values : Type 0 where
    nil : Values
    cons : Value → Values → Values

abbrev pub tag_of_fixed : Fixed → ℕ
tag_of_fixed uint8 = 0
tag_of_fixed int8 = 1
tag_of_fixed uint16 = 2
tag_of_fixed int16 = 3
tag_of_fixed uint32 = 4
tag_of_fixed int32 = 5
tag_of_fixed float32 = 6
tag_of_fixed bool = 7
tag_of_fixed uint64 = 10
tag_of_fixed int64 = 11
tag_of_fixed float64 = 12

abbrev pub tag_of : ValueType → ℕ
tag_of (fixed t) = tag_of_fixed t
tag_of string = 8
tag_of array = 9

abbrev pub type_of_value : Value → ValueType
type_of_value (num t n) = fixed t
type_of_value (str s) = string
type_of_value (arr t vs) = array

abbrev pub count : Values → ℕ
count nil = 0
count (cons v vs) = suc (count vs)

unfoldable mutual
  pub write : Value → Text
  write (num t n) = le_bytes (width t) n
  write (str s) = le_bytes 8 (length s) ++ s
  write (arr t vs) = le_bytes 4 (tag_of t) ++ (le_bytes 8 (count vs) ++ write_all vs)

  pub write_all : Values → Text
  write_all nil = []
  write_all (cons v vs) = write v ++ write_all vs

unfoldable mutual
  -- Numbers fit their width, strings the reader's cap, and the elements of an array their tag.
  pub IsWritable : Value → Type 0
  IsWritable (num t n) = n < values_of (width t)
  IsWritable (str s) = length s ≤ max_string
  IsWritable (arr t vs) = (count vs < values_of 8) × AllWritable t vs

  pub AllWritable : ValueType → Values → Type 0
  AllWritable t nil = Unit
  AllWritable t (cons v vs) = (type_of_value v ≡ t) × IsWritable v × AllWritable t vs

unfoldable mutual
  pub depth : Value → ℕ
  depth (num t n) = 0
  depth (str s) = 0
  depth (arr t vs) = suc (depth_all vs)

  pub depth_all : Values → ℕ
  depth_all nil = 0
  depth_all (cons v vs) = max (depth v) (depth_all vs)

-- The text that the reader keeps of a value.
abbrev pub shown : Floats → Value → Text
shown p (num t n) = show_fixed p t n
shown p (str s) = s
shown p (arr t vs) = []

-- A pair of the header: the key, the tag of the value's type and the value.
unfoldable pub write_pair : Text → Value → Text
write_pair key v =
    le_bytes 8 (length key) ++ (key ++ (le_bytes 4 (tag_of (type_of_value v)) ++ write v))

unfoldable pub write_pairs : List (Text × Value) → Text
write_pairs [] = []
write_pairs ((key, v) ∷ kvs) = write_pair key v ++ write_pairs kvs

abbrev pub AllPairs : List (Text × Value) → Type 0
AllPairs [] = Unit
AllPairs ((key, v) ∷ kvs) = (length key ≤ max_string) × IsWritable v × AllPairs kvs

-- The entries of a header with these pairs: the last text of each key, but no empty one.
abbrev pub entries : Floats → List (Text × Value) → Map Text → Map Text
entries p [] meta = meta
entries p ((key, v) ∷ kvs) meta =
    entries p kvs (if is_empty (shown p v) then meta else insert key (shown p v) meta)

unfoldable pub write_gguf : ℕ → ℕ → List (Text × Value) → Text → Text
write_gguf version tensors kvs rest =
    text "GGUF"
    ++ (le_bytes 4 version
        ++ (le_bytes 8 tensors ++ (le_bytes 8 (length kvs) ++ (write_pairs kvs ++ rest))))
