-- ===== src/Models/Scanner/Lookup.antt =====
-- Which model a name stands for, and what a scan lists (internal/models/scanner.go).
use hive_mind_fusion.Prelude.{
  Text, same, same_iff, ne_of_same, to_lower, List, [], ◌∷◌, All, none, some, ◌≡◌, ◌≢◌, refl, ◌⊎◌,
  inl, inr, Bool-cases,
}
use hive_mind_fusion.Models.Scanner.{
  Files, Model, scan, needle_of, find_named, found, not_found, find_by_name,
}

-- The model that was found is the first whose name in lower case is the one looked for.
abbrev pub First : Text → Model → List Model → Type 0
First needle m [] = ⊥
First needle m (x ∷ xs) =
    ((x ≡ m) × (to_lower m.name ≡ needle)) ⊎ ((to_lower x.name ≢ needle) × First needle m xs)

find_named_lem :
    (needle : Text) (ms : List Model)
    → ((m : Model) × (find_named needle ms ≡ some m) × First needle m ms)
      ⊎ ((find_named needle ms ≡ none) × All (λ (x : Model). to_lower x.name ≢ needle) ms)
unfolding find_named
find_named_lem needle [] = inr (refl, tt)
find_named_lem needle (m ∷ ms) = elim (Bool-cases (same (to_lower m.name) needle)) [
  | inl y ↦ rw y (inl (m, refl, inl (refl, (same_iff (to_lower m.name) needle).0 y)))
  | inr n ↦
      let ne = ne_of_same (to_lower m.name) needle n in
      rw n (elim (find_named_lem needle ms) [
        | inl (x, e, first) ↦ inl (x, e, inr (ne, first))
        | inr (e, all) ↦ inr (e, (ne, all))
      ])
]

-- For each directory whose scan gives these models, and each name: the lookup finds the first model whose name
-- in lower case is the name in lower case without ".gguf", or no model has such a name and it reports that.
find_by_name_lem :
    (fs : Files) (dir name : Text) (ms : List Model)
    → scan fs dir ≡ some ms
    → ((m : Model) × (find_by_name fs dir name ≡ found m) × First (needle_of name) m ms)
      ⊎ ((find_by_name fs dir name ≡ not_found)
          × All (λ (x : Model). to_lower x.name ≢ needle_of name) ms)
unfolding find_by_name
find_by_name_lem fs dir name ms e = rw e (elim (find_named_lem (needle_of name) ms) [
  | inl (m, f, first) ↦ rw f (inl (m, refl, first))
  | inr (f, all) ↦ rw f (inr (refl, all))
])
