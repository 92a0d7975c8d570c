-- ===== src/Prelude/Texts.antt =====
-- Go strings as the sequences of their bytes.
use Prim.Native.Char.{code}
use Prim.Native.String.{String}
use Prim.Native.Nat.{ℕ}
use mathlib.Core.Path.{◌≡◌, refl}
use mathlib.Core.Logic.{◌↔◌, ◌≢◌}
use mathlib.Core.Bool.{Bool, true, false, ◌&&◌, ◌||◌}
use mathlib.Core.Option.{Option, none, some}
use mathlib.Core.List.{List, [], ◌∷◌, ◌++◌, reverse}
use native.Mathlib.Omega.{arith}
use hive_mind_fusion.Prelude.Tests.{◌==◌, if◌then◌else◌, is_some}

abbrev pub Text : Type 0
Text = List ℕ

-- The bytes of an ASCII literal.
unfoldable pub text : String → Text
text String.[] = []
text (String.◌∷◌ c s) = code c ∷ text s

-- `a == b` on strings.
unfoldable pub same : Text → Text → Bool
same [] [] = true
same (a ∷ s) (b ∷ t) = a == b && same s t
same _ _ = false

pub same_iff : (s t : Text) → (same s t ≡ true) ↔ (s ≡ t)
unfolding same
same_iff [] [] = ground arith
same_iff [] (b ∷ t) = ground arith
same_iff (a ∷ s) [] = ground arith
same_iff (a ∷ s) (b ∷ t) = ground (arith, same_iff s t)

pub same_refl : (s : Text) → same s s ≡ true
same_refl s = (same_iff s s).1 refl

-- `s == ""`.
abbrev pub is_empty : Text → Bool
is_empty [] = true
is_empty (c ∷ s) = false

-- `strings.HasPrefix(s, p)`, with the prefix first.
unfoldable pub has_prefix : Text → Text → Bool
has_prefix [] s = true
has_prefix (a ∷ p) [] = false
has_prefix (a ∷ p) (c ∷ s) = a == c && has_prefix p s

-- `strings.TrimPrefix(s, p)`.
unfoldable pub strip_prefix : Text → Text → Option Text
strip_prefix [] s = some s
strip_prefix (a ∷ p) [] = none
strip_prefix (a ∷ p) (c ∷ s) = let rest = strip_prefix p s in if a == c then rest else none

abbrev pub mem_byte : ℕ → Text → Bool
mem_byte c [] = false
mem_byte c (d ∷ s) = c == d || mem_byte c s

-- `strings.TrimLeft(s, cutset)` and `strings.TrimRight(s, cutset)` for a cutset of ASCII bytes.
unfoldable pub trim_left : Text → Text → Text
trim_left cut [] = []
trim_left cut (c ∷ s) = let rest = trim_left cut s in if mem_byte c cut then rest else c ∷ s

unfoldable pub trim_right : Text → Text → Text
unfolding trim_left
trim_right cut s = reverse (trim_left cut (reverse s))

pub strip_prefix_iff : (p s t : Text) → (strip_prefix p s ≡ some t) ↔ (s ≡ p ++ t)
unfolding strip_prefix
strip_prefix_iff [] s t = ground arith
strip_prefix_iff (a ∷ p) [] t = ground arith
strip_prefix_iff (a ∷ p) (c ∷ s) t = ground (arith, strip_prefix_iff p s t)

pub has_prefix-strip_prefix : (p s : Text) → has_prefix p s ≡ is_some (strip_prefix p s)
unfolding has_prefix strip_prefix
has_prefix-strip_prefix [] s = refl
has_prefix-strip_prefix (a ∷ p) [] = refl
has_prefix-strip_prefix (a ∷ p) (c ∷ s) = ground (arith, has_prefix-strip_prefix p s)

pub ne_of_same : (s t : Text) → same s t ≡ false → s ≢ t
ne_of_same s t h e = ground (arith, same_iff s t, e)
