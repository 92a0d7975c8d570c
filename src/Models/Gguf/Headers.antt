-- ===== src/Models/Gguf/Headers.antt =====
-- What the GGUF reader makes of a whole header (internal/models/gguf.go).
use hive_mind_fusion.Prelude.{
  ℕ, suc, ◌≤◌, ◌<◌, ltb, ◌||◌, Bool, false, same_refl, Text, text, is_empty, Map, insert, List, [],
  ◌∷◌, ◌++◌, append_assoc, Option, some, if◌then◌else◌, length, length-append, ◌≡◌, ◌∙◌, refl, ap,
  arith,
}
use hive_mind_fusion.Models.Gguf.{
  ok, ◌>>=◌, read_uint, read_full, read_string, max_string, ValueType, type_of, Floats,
  read_by_type, read_value, read_pair, read_pairs, pairs_step, read_counts, header, not_gguf,
  unsupported, header_of, after_counts, after_version, after_magic, read_gguf_header,
}
use hive_mind_fusion.Models.Gguf.Writer.{
  le_bytes, values_of, Value, tag_of, type_of_value, write, IsWritable, shown, write_pair,
  write_pairs, AllPairs, entries, write_gguf,
}
use hive_mind_fusion.Models.Gguf.RoundTrip.{
  type_of-tag_of, >>=-ok, read_uint-le_bytes, read_full-append, read_string-write, tag-lt, depth-le,
  read_by_type-write,
}

module _ (p : Floats) where
  read_value-write :
      (v : Value) (rest : Text)
      → IsWritable v
      → read_value p (le_bytes 4 (tag_of (type_of_value v)) ++ (write v ++ rest))
        ≡ ok (shown p v) rest
  unfolding read_value
  read_value-write v rest h =
      let t = type_of_value v in
      let body = write v ++ rest in
      let fuel = suc (length body) in
      >>=-ok (read_uint 4 (le_bytes 4 (tag_of t) ++ body))
        (λ tag r. read_by_type p (suc (length r)) (type_of tag) r) (tag_of t) body
        (read_uint-le_bytes 4 (tag_of t) body (tag-lt t))
      ∙ ap (λ (o : Option ValueType). read_by_type p fuel o body) (type_of-tag_of t)
      ∙ read_by_type-write p v fuel rest h (omega (arith, depth-le v, length-append (write v) rest))

  read_pair-write :
      (key : Text) (v : Value) (rest : Text)
      → length key ≤ max_string
      → IsWritable v
      → read_pair p (write_pair key v ++ rest) ≡ ok (key, shown p v) rest
  unfolding read_pair write_pair
  read_pair-write key v rest short h =
      let tag = le_bytes 4 (tag_of (type_of_value v)) in
      let size = le_bytes 8 (length key) in
      let body = tag ++ (write v ++ rest) in
      let regroup : (size ++ (key ++ (tag ++ write v))) ++ rest ≡ size ++ (key ++ body) =
        append_assoc size (key ++ (tag ++ write v)) rest
        ∙ ap (λ (l : Text). size ++ l)
            (append_assoc key (tag ++ write v) rest
              ∙ ap (λ (l : Text). key ++ l) (append_assoc tag (write v) rest)) in
      ap (read_pair p) regroup
      ∙ >>=-ok (read_string (size ++ (key ++ body)))
          (λ k r. read_value p r >>= λ value r'. ok (k, value) r') key body
          (read_string-write key body short)
      ∙ >>=-ok (read_value p body) (λ value r'. ok (key, value) r') (shown p v) rest
          (read_value-write v rest h)

  read_pairs-write :
      (kvs : List (Text × Value)) (rest : Text) (meta : Map Text)
      → AllPairs kvs
      → read_pairs p (length kvs) (write_pairs kvs ++ rest) meta ≡ some (entries p kvs meta)
  unfolding read_pairs write_pairs
  read_pairs-write [] rest meta h = refl
  read_pairs-write ((key, v) ∷ kvs) rest meta (short, h, hs) =
      let next = λ (r : Text) (m : Map Text). read_pairs p (length kvs) r m in
      ap (λ (s : Text). pairs_step next meta (read_pair p s))
        (append_assoc (write_pair key v) (write_pairs kvs) rest)
      ∙ ap (pairs_step next meta) (read_pair-write key v (write_pairs kvs ++ rest) short h)
      ∙ read_pairs-write kvs rest
          (if is_empty (shown p v) then meta else insert key (shown p v) meta) hs

  read_counts-write :
      (tensors n : ℕ) (rest : Text)
      → tensors < values_of 8
      → n < values_of 8
      → read_counts (le_bytes 8 tensors ++ (le_bytes 8 n ++ rest)) ≡ ok (tensors, n) rest
  unfolding read_counts
  read_counts-write tensors n rest h k =
      let second = λ (t : ℕ) (r : Text). read_uint 8 r >>= λ kvs r'. ok (t, kvs) r' in
      >>=-ok (read_uint 8 (le_bytes 8 tensors ++ (le_bytes 8 n ++ rest))) second tensors
        (le_bytes 8 n ++ rest) (read_uint-le_bytes 8 tensors (le_bytes 8 n ++ rest) h)
      ∙ >>=-ok (read_uint 8 (le_bytes 8 n ++ rest)) (λ kvs r. ok (tensors, kvs) r) n rest
          (read_uint-le_bytes 8 n rest k)

  supported : (version : ℕ) → 2 ≤ version → version ≤ 3 → (ltb version 2 || ltb 3 version) ≡ false
  supported version lo hi = ground arith

  version-lt : (version : ℕ) → version ≤ 3 → version < values_of 4
  unfolding values_of
  version-lt version hi = omega arith

  read_magic : (s : Text) → read_full 4 (text "GGUF" ++ s) ≡ ok (text "GGUF") s
  unfolding text
  read_magic s = read_full-append (text "GGUF") s

  -- The reader of a header gets back what a writer of the format puts into the file, whatever follows:
  -- version, both counts, and for each key the text of its last value that has one. Strings keep their
  -- bytes and numbers of more than one byte are shown by their value; arrays, nested ones too, are
  -- skipped; and a number of one byte other than a Boolean is shown as "0" whatever its value is.
  pub read_gguf_header-write :
      (version tensors : ℕ) (kvs : List (Text × Value)) (rest : Text)
      → 2 ≤ version
      → version ≤ 3
      → tensors < values_of 8
      → length kvs < values_of 8
      → AllPairs kvs
      → read_gguf_header p (write_gguf version tensors kvs rest)
        ≡ header (record {
          version = version;
          tensor_count = tensors;
          kv_count = length kvs;
          metadata = entries p kvs [];
        })
  unfolding read_gguf_header write_gguf
  read_gguf_header-write version tensors kvs rest lo hi few_tensors few all =
      let pairs = write_pairs kvs ++ rest in
      let counts = le_bytes 8 tensors ++ (le_bytes 8 (length kvs) ++ pairs) in
      let versioned = le_bytes 4 version ++ counts in
      ap (after_magic p) (read_magic versioned)
      ∙ ap
          (λ (b : Bool).
            if b then after_version p (read_uint 4 versioned) else not_gguf (text "GGUF"))
          (same_refl (text "GGUF"))
      ∙ ap (after_version p) (read_uint-le_bytes 4 version counts (version-lt version hi))
      ∙ ap
          (λ (b : Bool).
            if b then unsupported version else after_counts p version (read_counts counts))
          (supported version lo hi)
      ∙ ap (after_counts p version) (read_counts-write tensors (length kvs) pairs few_tensors few)
      ∙ ap (header_of version tensors (length kvs)) (read_pairs-write kvs rest [] all)
