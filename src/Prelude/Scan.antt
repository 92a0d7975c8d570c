-- ===== src/Prelude/Scan.antt =====
-- Searching and cutting Go strings byte by byte. Case mapping and white space are those of ASCII.
use Prim.Native.Nat.{ℕ, suc, ◌+◌}
use mathlib.Core.Bool.{Bool, ◌&&◌, ◌||◌}
use mathlib.Core.Option.{Option, none, some}
use mathlib.Core.List.{List, [], ◌∷◌, ◌++◌, reverse, map}
use hive_mind_fusion.Prelude.Tests.{◌==◌, leb, if◌then◌else◌}
use hive_mind_fusion.Prelude.Texts.{
  Text, has_prefix, strip_prefix, mem_byte, trim_left, trim_right, is_empty,
}

-- `strings.ToLower` on ASCII.
abbrev pub lower_byte : ℕ → ℕ
lower_byte c = if leb b'A' c && leb c b'Z' then c + 32 else c

unfoldable pub to_lower : Text → Text
to_lower s = map lower_byte s

-- `strings.Contains(s, p)`, with the part first.
unfoldable pub contains : Text → Text → Bool
unfolding has_prefix
contains p [] = is_empty p
contains p (c ∷ s) = has_prefix p (c ∷ s) || contains p s

abbrev pub put_before : ℕ → Option (Text × Text) → Option (Text × Text)
put_before c none = none
put_before c (some (before, after)) = some (c ∷ before, after)

-- What stands before and behind the first occurrence of a part.
unfoldable pub cut_at : Text → Text → Option (Text × Text)
unfolding strip_prefix
cut_at p [] = elim (strip_prefix p []) [ none ↦ none | some rest ↦ some ([], rest) ]
cut_at p (c ∷ s) =
    let later = put_before c (cut_at p s) in
    elim (strip_prefix p (c ∷ s)) [ none ↦ later | some rest ↦ some ([], rest) ]

abbrev pub glue : Text → Text → Option (Text × Text) → Text
glue s new none = s
glue s new (some (before, after)) = before ++ (new ++ after)

-- `strings.Replace(s, old, new, 1)`, with the text last.
unfoldable pub replace_first : Text → Text → Text → Text
unfolding cut_at
replace_first old new s = glue s new (cut_at old s)

abbrev pub spaces : Text
spaces = 9 ∷ 10 ∷ 11 ∷ 12 ∷ 13 ∷ 32 ∷ []

-- `strings.TrimSpace`.
unfoldable pub trim_space : Text → Text
unfolding trim_left trim_right
trim_space s = trim_left spaces (trim_right spaces s)

abbrev pub add_to_head : ℕ → List Text → List Text
add_to_head c [] = (c ∷ []) ∷ []
add_to_head c (l ∷ ls) = (c ∷ l) ∷ ls

-- `strings.Split(s, sep)` for a separator of one byte.
unfoldable pub split : ℕ → Text → List Text
split sep [] = [] ∷ []
split sep (c ∷ s) = let rest = split sep s in if c == sep then [] ∷ rest else add_to_head c rest

-- `strings.Join(parts, sep)`, with the separator first.
unfoldable pub join : Text → List Text → Text
join sep [] = []
join sep (p ∷ []) = p
join sep (p ∷ q ∷ ps) = p ++ (sep ++ join sep (q ∷ ps))

abbrev pub close_word : Text → List Text → List Text
close_word [] ws = ws
close_word (c ∷ w) ws = reverse (c ∷ w) ∷ ws

-- `strings.Fields`, with the word being read, its last byte first.
unfoldable pub fields_from : Text → Text → List Text
fields_from word [] = close_word word []
fields_from word (c ∷ s) =
    let closed = close_word word (fields_from [] s) in
    let longer = fields_from (c ∷ word) s in if mem_byte c spaces then closed else longer

unfoldable pub fields : Text → List Text
unfolding fields_from
fields s = fields_from [] s

abbrev pub suc_if_some : Option ℕ → Option ℕ
suc_if_some none = none
suc_if_some (some n) = some (suc n)

-- `strings.Index` and `strings.LastIndex` of one byte, `none` for -1.
unfoldable pub index_of : ℕ → Text → Option ℕ
index_of c [] = none
index_of c (d ∷ s) = let rest = suc_if_some (index_of c s) in if d == c then some 0 else rest

abbrev pub first_some : Option ℕ → Option ℕ → Option ℕ
first_some none o = o
first_some (some n) o = some n

unfoldable pub last_index_of : ℕ → Text → Option ℕ
last_index_of c [] = none
last_index_of c (d ∷ s) =
    first_some (suc_if_some (last_index_of c s)) (if d == c then some 0 else none)
