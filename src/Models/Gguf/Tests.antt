-- ===== src/Models/Gguf/Tests.antt =====
-- A small GGUF file through the reader (internal/models/gguf.go).
use hive_mind_fusion.Prelude.{
  Text, text, same, List, [], ◌∷◌, length, ◌≡◌, refl, arith, decimal, insert,
}
use hive_mind_fusion.Models.Gguf.{
  Floats, fixed, uint8, int16, array, read_uint, read_full, read_string, type_of, show_fixed,
  skip_items, skip_array, read_by_type, read_value, read_pair, read_pairs, read_counts, header,
  read_gguf_header, not_gguf,
}
use hive_mind_fusion.Models.Gguf.Writer.{
  le_bytes, values_of, Value, num, str, arr, nil, cons, write, write_all, IsWritable, AllWritable,
  write_pair, write_pairs, AllPairs, entries, write_gguf,
}
use hive_mind_fusion.Models.Gguf.Totality.{Ends, read_gguf_header-Ends}
use hive_mind_fusion.Models.Gguf.Headers.{read_gguf_header-write}

abbrev floats : Floats
floats = record { format32 = λ n. text "f"; format64 = λ n. text "d" }

-- A string, a byte, a signed number and an array of arrays of bytes.
abbrev pairs : List (Text × Value)
pairs =
    (text "a", str (text "llama"))
    ∷ (text "b", num uint8 7)
    ∷ (text "c", num int16 65535)
    ∷ (text "d", arr array (cons (arr (fixed uint8) (cons (num uint8 1) nil)) nil))
    ∷ []

abbrev file : Text
file = write_gguf 3 5 pairs []

shows :
    read_gguf_header floats file
    ≡ header (record {
      version = 3;
      tensor_count = 5;
      kv_count = 4;
      metadata = (text "a", text "llama") ∷ (text "b", text "0") ∷ (text "c", text "-1") ∷ [];
    })
unfolding read_gguf_header read_full read_uint read_counts read_pairs read_pair read_string
    read_value read_by_type skip_array skip_items type_of show_fixed decimal write_gguf write_pairs
    write_pair write write_all le_bytes insert text same
shows = refl

no_gguf : read_gguf_header floats (text "GGML....") ≡ not_gguf (text "GGML")
unfolding read_gguf_header read_full text same
no_gguf = refl

read_gguf_header-Ends_example : Ends file (read_gguf_header floats file)
read_gguf_header-Ends_example = read_gguf_header-Ends floats file

all_writable : AllPairs pairs
unfolding values_of IsWritable AllWritable text
all_writable = ground arith

read_gguf_header-write_example :
    read_gguf_header floats (write_gguf 3 5 pairs [])
    ≡ header (record {
      version = 3;
      tensor_count = 5;
      kv_count = length pairs;
      metadata = entries floats pairs [];
    })
unfolding values_of IsWritable AllWritable text
read_gguf_header-write_example =
    read_gguf_header-write floats 3 5 pairs [] (omega arith) (omega arith) (omega arith)
      (omega arith) all_writable
