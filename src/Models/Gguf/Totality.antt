-- ===== src/Models/Gguf/Totality.antt =====
-- The GGUF reader ends on every file (internal/models/gguf.go).
use hive_mind_fusion.Prelude.{
  ℕ, zero, suc, ◌+◌, ◌*◌, ◌≤◌, ltb, ◌||◌, Text, is_empty, Map, insert, [], ◌∷◌, Option, none, some,
  if◌then◌else◌, length, same, text, arith, Bool-cases, inl, inr,
}
use hive_mind_fusion.Models.Gguf.{
  Read, ok, err, stuck, ◌>>=◌, read_uint, read_full, read_string, Floats, read_value, read_pair,
  read_pairs, HeaderResult, header, out_of_fuel, header_of, pairs_step, read_counts, after_counts,
  after_version, after_magic, read_gguf_header,
}
use hive_mind_fusion.Models.Gguf.Taking.{
  Takes, >>=-Takes, read_uint-Takes, read_full-Takes, read_string-Takes, read_value-Takes,
}

length-insert-le : (k v : Text) (m : Map Text) → length (insert k v m) ≤ suc (length m)
unfolding insert
length-insert-le k v [] = omega arith
length-insert-le k v ((j, w) ∷ m) = ground (arith, length-insert-le k v m)

-- What the loop over the pairs comes to: a map, with a new entry for each 13 bytes at most.
abbrev Bounded : Text → Map Text → Option (Map Text) → Type 0
Bounded s meta none = ⊥
Bounded s meta (some meta') = 13 * length meta' ≤ 13 * length meta + length s

Bounded-mono :
    (s r : Text) (meta meta' : Map Text) (o : Option (Map Text))
    → 13 * length meta' + length r ≤ 13 * length meta + length s
    → Bounded r meta' o
    → Bounded s meta o
Bounded-mono s r meta meta' none h b = absurd b
Bounded-mono s r meta meta' (some m) h b = omega arith

put-Bounded :
    (key value : Text) (meta : Map Text)
    → length (if is_empty value then meta else insert key value meta) ≤ suc (length meta)
put-Bounded key value meta = ground (arith, length-insert-le key value meta)

pairs_step-Bounded :
    (next : Text → Map Text → Option (Map Text)) (s : Text) (meta : Map Text)
    (m : Read (Text × Text))
    → Takes 13 s m
    → ((rest : Text) (meta' : Map Text) → Bounded rest meta' (next rest meta'))
    → Bounded s meta (pairs_step next meta m)
pairs_step-Bounded next s meta (ok (key, value) rest) t h =
    let meta' = if is_empty value then meta else insert key value meta in
    Bounded-mono s rest meta meta' (next rest meta') (omega (arith, put-Bounded key value meta))
      (h rest meta')
pairs_step-Bounded next s meta err t h = omega arith
pairs_step-Bounded next s meta stuck t h = absurd t

module _ (p : Floats) where
  read_pair-Takes : (s : Text) → Takes 13 s (read_pair p s)
  unfolding read_pair
  read_pair-Takes s =
      >>=-Takes 8 5 s (read_string s)
        (λ key rest. read_value p rest >>= λ value rest'. ok (key, value) rest')
        (read_string-Takes s)
        (λ key rest le.
          >>=-Takes 5 0 rest (read_value p rest) (λ value rest'. ok (key, value) rest')
            (read_value-Takes p rest) (λ value rest' le'. omega arith))

  read_pairs-Bounded : (n : ℕ) (s : Text) (meta : Map Text) → Bounded s meta (read_pairs p n s meta)
  unfolding read_pairs
  read_pairs-Bounded zero s meta = omega arith
  read_pairs-Bounded (suc n) s meta =
      pairs_step-Bounded (λ rest m. read_pairs p n rest m) s meta (read_pair p s)
        (read_pair-Takes s) (λ rest m. read_pairs-Bounded n rest m)

-- The bound on a header's entries, for any other result that the program has nothing.
abbrev pub Ends : Text → HeaderResult → Type 0
Ends s out_of_fuel = ⊥
Ends s (header h) = (2 ≤ h.version) × (h.version ≤ 3) × (13 * length h.metadata + 24 ≤ length s)
Ends s other = Unit

header_of-Ends :
    (version tensors kvs : ℕ) (s r : Text) (o : Option (Map Text))
    → 2 ≤ version
    → version ≤ 3
    → length r + 24 ≤ length s
    → Bounded r [] o
    → Ends s (header_of version tensors kvs o)
header_of-Ends version tensors kvs s r none lo hi le b = absurd b
header_of-Ends version tensors kvs s r (some meta) lo hi le b = (lo, hi, omega arith)

read_counts-Takes : (s : Text) → Takes 16 s (read_counts s)
unfolding read_counts
read_counts-Takes s =
    >>=-Takes 8 8 s (read_uint 8 s)
      (λ tensors rest. read_uint 8 rest >>= λ kvs rest'. ok (tensors, kvs) rest')
      (read_uint-Takes 8 s)
      (λ tensors rest le.
        >>=-Takes 8 0 rest (read_uint 8 rest) (λ kvs rest'. ok (tensors, kvs) rest')
          (read_uint-Takes 8 rest) (λ kvs rest' le'. omega arith))

module _ (p : Floats) (s : Text) where
  after_counts-Ends :
      (version : ℕ) (r : Text) (m : Read (ℕ × ℕ))
      → 2 ≤ version
      → version ≤ 3
      → length r + 8 ≤ length s
      → Takes 16 r m
      → Ends s (after_counts p version m)
  after_counts-Ends version r (ok (tensors, kvs) rest) lo hi le t =
      header_of-Ends version tensors kvs s rest (read_pairs p kvs rest []) lo hi (omega arith)
        (read_pairs-Bounded p kvs rest [])
  after_counts-Ends version r err lo hi le t = tt
  after_counts-Ends version r stuck lo hi le t = absurd t

  after_version-Ends :
      (r : Text) (m : Read ℕ) → length r + 4 ≤ length s → Takes 4 r m → Ends s (after_version p m)
  after_version-Ends r (ok version rest) le t = elim (Bool-cases (ltb version 2 || ltb 3 version)) [
    | inl bad ↦ rw bad tt
    | inr good ↦ rw good (
        after_counts-Ends version rest (read_counts rest) (ground arith) (ground arith)
          (omega arith) (read_counts-Takes rest))
  ]
  after_version-Ends r err le t = tt
  after_version-Ends r stuck le t = absurd t

  after_magic-Ends : (m : Read Text) → Takes 4 s m → Ends s (after_magic p m)
  after_magic-Ends (ok magic rest) t = elim (Bool-cases (same magic (text "GGUF"))) [
    | inl right ↦ rw right (after_version-Ends rest (read_uint 4 rest) t (read_uint-Takes 4 rest))
    | inr wrong ↦ rw wrong tt
  ]
  after_magic-Ends err t = tt
  after_magic-Ends stuck t = absurd t

-- On every file the reader comes to a result, since fuel by the length of the input is enough for
-- any nesting of arrays. A header that it returns has version 2 or 3, and at most one entry for each
-- 13 bytes behind the first 24, whatever count of pairs the file claims.
pub read_gguf_header-Ends : (p : Floats) (s : Text) → Ends s (read_gguf_header p s)
unfolding read_gguf_header
read_gguf_header-Ends p s = after_magic-Ends p s (read_full 4 s) (read_full-Takes 4 s)
