-- ===== src/Models/Gguf/RoundTrip.antt =====
-- What the GGUF reader makes of the values that a writer of the format leaves
-- (internal/models/gguf.go).
use hive_mind_fusion.Prelude.{
  ℕ, zero, suc, ◌+◌, ◌*◌, ◌/◌, ◌%◌, ◌≤◌, ◌<◌, ltb, Text, [], ◌∷◌, ◌++◌, append_assoc, Option, some,
  if◌then◌else◌, length, length-append, ◌≡◌, ◌∙◌, refl, ap, arith,
}
use hive_mind_fusion.Models.Gguf.{
  Read, ok, err, ◌>>=◌, read_uint, read_full, read_string, max_string, width, ValueType, fixed,
  string, array, type_of, Floats, show_fixed, skip_items, skip_array, read_by_type,
}
use hive_mind_fusion.Models.Gguf.Writer.{
  le_bytes, values_of, Value, num, str, arr, Values, nil, cons, tag_of, type_of_value, count, write,
  write_all, IsWritable, AllWritable, depth, depth_all, shown,
}

pub type_of-tag_of : (t : ValueType) → type_of (tag_of t) ≡ some t
unfolding type_of
type_of-tag_of (fixed t) = ground arith
type_of-tag_of string = refl
type_of-tag_of array = refl

pub >>=-ok :
    {A B : Type 0} (m : Read A) (f : A → Text → Read B) (a : A) (s : Text)
    → m ≡ ok a s
    → (m >>= f) ≡ f a s
>>=-ok {A} m f a s e = ap (λ (x : Read A). x >>= f) e

pub read_uint-le_bytes :
    (w n : ℕ) (rest : Text) → n < values_of w → read_uint w (le_bytes w n ++ rest) ≡ ok n rest
unfolding read_uint le_bytes values_of
read_uint-le_bytes zero n rest h = let e : 0 ≡ n = omega arith in ap (λ (k : ℕ). ok k rest) e
read_uint-le_bytes (suc w) n rest h =
    let e : n % 256 + 256 * (n / 256) ≡ n = omega arith in
    >>=-ok (read_uint w (le_bytes w (n / 256) ++ rest)) (λ k r. ok (n % 256 + 256 * k) r) (n / 256)
      rest (read_uint-le_bytes w (n / 256) rest (omega arith))
    ∙ ap (λ (k : ℕ). ok k rest) e

pub read_full-append : (s rest : Text) → read_full (length s) (s ++ rest) ≡ ok s rest
unfolding read_full
read_full-append [] rest = refl
read_full-append (b ∷ s) rest =
    >>=-ok (read_full (length s) (s ++ rest)) (λ bytes r. ok (b ∷ bytes) r) s rest
      (read_full-append s rest)

values_of_eight : max_string < values_of 8
unfolding values_of
values_of_eight = omega arith

pub read_string-write :
    (s rest : Text)
    → length s ≤ max_string
    → read_string (le_bytes 8 (length s) ++ (s ++ rest)) ≡ ok s rest
unfolding read_string
read_string-write s rest h =
    >>=-ok (read_uint 8 (le_bytes 8 (length s) ++ (s ++ rest)))
      (λ n r. if ltb max_string n then err else read_full n r) (length s) (s ++ rest)
      (read_uint-le_bytes 8 (length s) (s ++ rest) (omega (arith, values_of_eight)))
    ∙ ground (arith, read_full-append s rest)

pub length-le_bytes : (w n : ℕ) → length (le_bytes w n) ≡ w
unfolding le_bytes
length-le_bytes zero n = refl
length-le_bytes (suc w) n = ap suc (length-le_bytes w (n / 256))

pub tag-lt : (t : ValueType) → tag_of t < values_of 4
unfolding values_of
tag-lt (fixed t) = ground arith
tag-lt string = omega arith
tag-lt array = omega arith

mutual
  unfolding depth depth_all write write_all

  pub depth-le : (v : Value) → depth v ≤ length (write v)
  depth-le (num t n) = omega arith
  depth-le (str s) = omega arith
  depth-le (arr t vs) =
      let tag = le_bytes 4 (tag_of t) in
      let size = le_bytes 8 (count vs) in
      omega (
        arith,
        length-append tag (size ++ write_all vs),
        length-append size (write_all vs),
        length-le_bytes 4 (tag_of t),
        depth_all-le vs,
      )

  depth_all-le : (vs : Values) → depth_all vs ≤ length (write_all vs)
  depth_all-le nil = omega arith
  depth_all-le (cons v vs) =
      omega (arith, length-append (write v) (write_all vs), depth-le v, depth_all-le vs)

module _ (p : Floats) where
  -- The two reads in front of an array's elements.
  skip_array-write :
      (read : Option ValueType → Text → Read Text) (t : ValueType) (n : ℕ) (body rest : Text)
      → n < values_of 8
      → skip_array read ((le_bytes 4 (tag_of t) ++ (le_bytes 8 n ++ body)) ++ rest)
        ≡ skip_items (read (some t)) n (body ++ rest)
  unfolding skip_array
  skip_array-write read t n body rest h =
      let size = le_bytes 8 n in
      let items = λ (tag : ℕ) (k : ℕ) (r : Text). skip_items (read (type_of tag)) k r in
      let after = λ (tag : ℕ) (r : Text). read_uint 8 r >>= items tag in
      ap (skip_array read) (append_assoc (le_bytes 4 (tag_of t)) (size ++ body) rest)
      ∙ >>=-ok (read_uint 4 (le_bytes 4 (tag_of t) ++ ((size ++ body) ++ rest))) after (tag_of t)
          ((size ++ body) ++ rest)
          (read_uint-le_bytes 4 (tag_of t) ((size ++ body) ++ rest) (tag-lt t))
      ∙ ap (after (tag_of t)) (append_assoc size body rest)
      ∙ >>=-ok (read_uint 8 (size ++ (body ++ rest))) (items (tag_of t)) n (body ++ rest)
          (read_uint-le_bytes 8 n (body ++ rest) h)
      ∙ ap (λ (o : Option ValueType). skip_items (read o) n (body ++ rest)) (type_of-tag_of t)

  mutual
    unfolding read_by_type skip_items depth depth_all write write_all IsWritable AllWritable

    pub read_by_type-write :
        (v : Value) (fuel : ℕ) (rest : Text)
        → IsWritable v
        → depth v ≤ fuel
        → read_by_type p fuel (some (type_of_value v)) (write v ++ rest) ≡ ok (shown p v) rest
    read_by_type-write (num t n) fuel rest h d =
        >>=-ok (read_uint (width t) (le_bytes (width t) n ++ rest)) (λ k r. ok (show_fixed p t k) r)
          n rest (read_uint-le_bytes (width t) n rest h)
    read_by_type-write (str s) fuel rest h d =
        ap read_string (append_assoc (le_bytes 8 (length s)) s rest) ∙ read_string-write s rest h
    read_by_type-write (arr t vs) zero rest h d = absurd (omega arith)
    read_by_type-write (arr t vs) (suc fuel) rest (few, all) d =
        let read = λ (u : Option ValueType) (r : Text). read_by_type p fuel u r in
        >>=-ok (skip_array read (write (arr t vs) ++ rest)) (λ u r. ok [] r) tt rest
          (skip_array-write read t (count vs) (write_all vs) rest few
            ∙ skip_items-write vs t fuel rest all (omega arith))

    skip_items-write :
        (vs : Values) (t : ValueType) (fuel : ℕ) (rest : Text)
        → AllWritable t vs
        → depth_all vs ≤ fuel
        → skip_items (λ r. read_by_type p fuel (some t) r) (count vs) (write_all vs ++ rest)
          ≡ ok tt rest
    skip_items-write nil t fuel rest h d = refl
    skip_items-write (cons v vs) t fuel rest (e, h, hs) d =
        let read = λ (r : Text). read_by_type p fuel (some t) r in
        ap (skip_items read (suc (count vs))) (append_assoc (write v) (write_all vs) rest)
        ∙ >>=-ok (read (write v ++ (write_all vs ++ rest)))
            (λ value r. skip_items read (count vs) r) (shown p v) (write_all vs ++ rest)
            (rw e at (read_by_type-write v fuel (write_all vs ++ rest) h (omega arith)))
        ∙ skip_items-write vs t fuel rest hs (omega arith)
