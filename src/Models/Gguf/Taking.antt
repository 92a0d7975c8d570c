-- ===== src/Models/Gguf/Taking.antt =====
-- How many bytes each part of the GGUF reader takes (internal/models/gguf.go).
use hive_mind_fusion.Prelude.{
  ℕ, zero, suc, ◌+◌, ◌*◌, ◌≤◌, ◌<◌, ltb, Text, [], ◌∷◌, Option, none, some, if◌then◌else◌, length,
  arith, Bool-cases, inl, inr,
}
use hive_mind_fusion.Models.Gguf.{
  Read, ok, err, stuck, ◌>>=◌, read_uint, read_full, read_string, max_string, Fixed, width,
  ValueType, fixed, string, array, type_of, Floats, skip_items, skip_array, read_by_type,
  read_value, show_fixed,
}

-- A reader that does not lack fuel, and takes at least `k` bytes where it succeeds.
abbrev pub Takes : {A : Type 0} → ℕ → Text → Read A → Type 0
Takes k s (ok a rest) = length rest + k ≤ length s
Takes k s err = Unit
Takes k s stuck = ⊥

pub Takes-mono :
    {A : Type 0} (j k : ℕ) (r s : Text) (m : Read A)
    → length r + k ≤ length s + j
    → Takes j r m
    → Takes k s m
Takes-mono j k r s (ok a rest) h t = omega arith
Takes-mono j k r s err h t = tt
Takes-mono j k r s stuck h t = absurd t

pub >>=-Takes :
    {A B : Type 0} (j k : ℕ) (s : Text) (m : Read A) (f : A → Text → Read B)
    → Takes j s m
    → ((a : A) (rest : Text) → length rest + j ≤ length s → Takes k rest (f a rest))
    → Takes (j + k) s (m >>= f)
>>=-Takes j k s (ok a rest) f h g =
    Takes-mono k (j + k) rest s (f a rest) (omega arith) (g a rest h)
>>=-Takes j k s err f h g = tt
>>=-Takes j k s stuck f h g = absurd h

-- A byte in front of a reader, whose result is only mapped.
pub map-Takes :
    {A B : Type 0} (k b : ℕ) (s : Text) (m : Read A) (f : A → B)
    → Takes k s m
    → Takes (suc k) (b ∷ s) (m >>= λ a rest. ok (f a) rest)
map-Takes k b s (ok a rest) f h = omega arith
map-Takes k b s err f h = tt
map-Takes k b s stuck f h = absurd h

pub read_uint-Takes : (w : ℕ) (s : Text) → Takes w s (read_uint w s)
unfolding read_uint
read_uint-Takes zero s = omega arith
read_uint-Takes (suc w) [] = tt
read_uint-Takes (suc w) (b ∷ s) =
    map-Takes w b s (read_uint w s) (λ n. b + 256 * n) (read_uint-Takes w s)

pub read_full-Takes : (n : ℕ) (s : Text) → Takes n s (read_full n s)
unfolding read_full
read_full-Takes zero s = omega arith
read_full-Takes (suc n) [] = tt
read_full-Takes (suc n) (b ∷ s) =
    map-Takes n b s (read_full n s) (λ bytes. b ∷ bytes) (read_full-Takes n s)

pub read_capped-Takes :
    (n : ℕ) (s : Text) → Takes 0 s (if ltb max_string n then err else read_full n s)
read_capped-Takes n s = elim (Bool-cases (ltb max_string n)) [
  | inl long ↦ rw long tt
  | inr short ↦ rw short (Takes-mono n 0 s s (read_full n s) (omega arith) (read_full-Takes n s))
]

pub read_string-Takes : (s : Text) → Takes 8 s (read_string s)
unfolding read_string
read_string-Takes s =
    >>=-Takes 8 0 s (read_uint 8 s) (λ n rest. if ltb max_string n then err else read_full n rest)
      (read_uint-Takes 8 s) (λ n rest h. read_capped-Takes n rest)

-- The loop over the elements of an array, for a reader that takes a byte of any input that is short
-- enough for its fuel.
pub skip_items-Takes :
    (read : Text → Read Text) (bound n : ℕ) (s : Text)
    → ((r : Text) → length r < bound → Takes 1 r (read r))
    → length s < bound
    → Takes 0 s (skip_items read n s)
unfolding skip_items
skip_items-Takes read bound zero s h lt = omega arith
skip_items-Takes read bound (suc n) s h lt =
    Takes-mono 1 0 s s (read s >>= λ value rest. skip_items read n rest) (omega arith) (
      >>=-Takes 1 0 s (read s) (λ value rest. skip_items read n rest) (h s lt)
        (λ value rest le. skip_items-Takes read bound n rest h (omega arith)))

pub skip_array-Takes :
    (read : Option ValueType → Text → Read Text) (bound : ℕ) (s : Text)
    → ((t : Option ValueType) (r : Text) → length r < bound → Takes 1 r (read t r))
    → length s < suc bound
    → Takes 12 s (skip_array read s)
unfolding skip_array
skip_array-Takes read bound s h lt =
    >>=-Takes 4 8 s (read_uint 4 s)
      (λ tag rest. read_uint 8 rest >>= λ count rest'. skip_items (read (type_of tag)) count rest')
      (read_uint-Takes 4 s)
      (λ tag rest le.
        >>=-Takes 8 0 rest (read_uint 8 rest)
          (λ count rest'. skip_items (read (type_of tag)) count rest') (read_uint-Takes 8 rest)
          (λ count rest' le'.
            skip_items-Takes (read (type_of tag)) bound count rest' (h (type_of tag))
              (omega arith)))

pub width_pos : (t : Fixed) → 1 ≤ width t
width_pos t = ground arith

module _ (p : Floats) where
  -- With fuel above the length of the input, the reader of a value takes a byte at least.
  pub read_by_type-Takes :
      (fuel : ℕ) (t : Option ValueType) (s : Text)
      → length s < fuel
      → Takes 1 s (read_by_type p fuel t s)
  unfolding read_by_type
  read_by_type-Takes fuel none s lt = tt
  read_by_type-Takes fuel (some (fixed t)) s lt =
      let shown = λ (n : ℕ) (rest : Text). ok (show_fixed p t n) rest in
      Takes-mono (width t + 0) 1 s s (read_uint (width t) s >>= shown) (omega (arith, width_pos t))
        (>>=-Takes (width t) 0 s (read_uint (width t) s) shown (read_uint-Takes (width t) s)
          (λ n rest le. omega arith))
  read_by_type-Takes fuel (some string) s lt =
      Takes-mono 8 1 s s (read_string s) (omega arith) (read_string-Takes s)
  read_by_type-Takes zero (some array) s lt = absurd (omega arith)
  read_by_type-Takes (suc fuel) (some array) s lt =
      let read = λ (t : Option ValueType) (r : Text). read_by_type p fuel t r in
      Takes-mono 12 1 s s (skip_array read s >>= λ u rest. ok [] rest) (omega arith) (
        >>=-Takes 12 0 s (skip_array read s) (λ u rest. ok [] rest)
          (skip_array-Takes read fuel s (λ t r h. read_by_type-Takes fuel t r h) lt)
          (λ u rest le. omega arith))

  pub read_value-Takes : (s : Text) → Takes 5 s (read_value p s)
  unfolding read_value
  read_value-Takes s =
      let read = λ (tag : ℕ) (rest : Text). read_by_type p (suc (length rest)) (type_of tag) rest in
      >>=-Takes 4 1 s (read_uint 4 s) read (read_uint-Takes 4 s)
        (λ tag rest le. read_by_type-Takes (suc (length rest)) (type_of tag) rest (omega arith))
