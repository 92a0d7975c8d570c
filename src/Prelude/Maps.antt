-- ===== src/Prelude/Maps.antt =====
-- Go maps with string keys, as association lists with one entry for each key.
use mathlib.Core.Path.{◌≡◌, refl}
use mathlib.Core.Bool.{Bool}
use mathlib.Core.Option.{Option, none, some}
use mathlib.Core.List.{List, [], ◌∷◌}
use native.Mathlib.Omega.{arith}
use hive_mind_fusion.Prelude.Tests.{if◌then◌else◌, is_some}
use hive_mind_fusion.Prelude.Texts.{Text, same, same_iff, same_refl}

abbrev pub Map {ℓ} : Type ℓ → Type ℓ
Map V = List (Text × V)

module _ {ℓ} {V : Type ℓ} where
  unfoldable pub lookup : Text → Map V → Option V
  lookup k [] = none
  lookup k ((j, v) ∷ m) = if same j k then some v else lookup k m

  unfoldable pub insert : Text → V → Map V → Map V
  insert k v [] = (k, v) ∷ []
  insert k v ((j, w) ∷ m) = if same j k then (k, v) ∷ m else (j, w) ∷ insert k v m

  -- `delete(m, k)` for every key that fails the test, in one pass over the map.
  unfoldable pub keep_keys : (Text → Bool) → Map V → Map V
  keep_keys p [] = []
  keep_keys p ((j, v) ∷ m) = let rest = keep_keys p m in if p j then (j, v) ∷ rest else rest

  -- `_, ok := m[k]`.
  abbrev pub has_key : Text → Map V → Bool
  has_key k m = is_some (lookup k m)

  pub lookup-insert :
      (k j : Text) (v : V) (m : Map V)
      → lookup j (insert k v m) ≡ (if same k j then some v else lookup j m)
  unfolding lookup insert
  lookup-insert k j v [] = refl
  lookup-insert k j v ((i, w) ∷ m) =
      ground (arith, same_iff k j, same_iff i k, same_iff i j, lookup-insert k j v m)

  pub lookup-insert_self : (k : Text) (v : V) (m : Map V) → lookup k (insert k v m) ≡ some v
  lookup-insert_self k v m = simp (lookup-insert, same_refl)

  pub lookup-keep_keys :
      (p : Text → Bool) (k : Text) (m : Map V)
      → lookup k (keep_keys p m) ≡ (if p k then lookup k m else none)
  unfolding lookup keep_keys
  lookup-keep_keys p k [] = ground arith
  lookup-keep_keys p k ((i, w) ∷ m) = ground (arith, same_iff i k, lookup-keep_keys p k m)

-- `m[k]` on a map of strings: "" for a key that is not there.
abbrev pub text_or_empty : Option Text → Text
text_or_empty none = []
text_or_empty (some v) = v

-- `http.Header.Get`.
abbrev pub get_header : Text → Map Text → Text
get_header name header = text_or_empty (lookup name header)
