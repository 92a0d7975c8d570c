-- ===== src/Fallback/Grouping.antt =====
-- Which backends a model's chain holds (internal/gateway/fallback.go).
use hive_mind_fusion.Prelude.{
  Text, Map, lookup, insert, lookup-insert, same, same_iff, List, [], ◌∷◌, ◌++◌, append-nil,
  append_assoc, Option, none, some, keep, ◌≡◌, refl, arith, ap, sym, ◌∙◌, ◌↔◌, ℤ,
}
use hive_mind_fusion.Config.{Backend}
use hive_mind_fusion.Fallback.Sorting.{IsSorted, has_precedence, sort_stable_lem}
use hive_mind_fusion.Fallback.{
  Chain, chain_or_nil, group, sort_chains, sort_stable, build_fallback_chain,
}

-- The backends of a model, in the order of the configuration.
abbrev pub serving : Text → List Backend → Chain
serving model bs = keep (λ (b : Backend). same b.model model) bs

abbrev pub joined : Option Chain → Chain → Option Chain
joined none [] = none
joined none (b ∷ bs) = some (b ∷ bs)
joined (some c) bs = some (c ++ bs)

joined-snoc :
    (o : Option Chain) (b : Backend) (bs : Chain)
    → joined (some (chain_or_nil o ++ b ∷ [])) bs ≡ joined o (b ∷ bs)
joined-snoc none b bs = refl
joined-snoc (some c) b bs = ap some (append_assoc c (b ∷ []) bs)

joined-nil : (o : Option Chain) → joined o [] ≡ o
joined-nil none = refl
joined-nil (some c) = ap some (append-nil c)

lookup-group :
    (model : Text) (bs : List Backend) (m : Map Chain)
    → lookup model (group m bs) ≡ joined (lookup model m) (serving model bs)
unfolding group
lookup-group model [] m = sym (joined-nil (lookup model m))
lookup-group model (b ∷ bs) m =
    let c = chain_or_nil (lookup b.model m) ++ b ∷ [] in
    ground (
      arith,
      lookup-group model bs (insert b.model c m),
      lookup-insert b.model model c m,
      same_iff b.model model,
      joined-snoc (lookup model m) b (serving model bs),
    )

abbrev pub sorted : Option Chain → Option Chain
sorted none = none
sorted (some c) = some (sort_stable c)

lookup-sort_chains :
    (model : Text) (m : Map Chain) → lookup model (sort_chains m) ≡ sorted (lookup model m)
unfolding sort_chains lookup
lookup-sort_chains model [] = refl
lookup-sort_chains model ((k, c) ∷ m) = ground (arith, lookup-sort_chains model m)

pub lookup-build_fallback_chain :
    (model : Text) (bs : List Backend)
    → lookup model (build_fallback_chain bs) ≡ sorted (joined none (serving model bs))
unfolding build_fallback_chain lookup
lookup-build_fallback_chain model bs =
    lookup-sort_chains model (group [] bs) ∙ ap sorted (lookup-group model bs [])

sorted-joined :
    (bs : Chain)
    → ((sorted (joined none bs) ≡ none) ↔ (bs ≡ []))
      × ((chain : Chain) → sorted (joined none bs) ≡ some chain → chain ≡ sort_stable bs)
sorted-joined [] = ((λ e. refl, λ e. refl), λ chain e. cc)
sorted-joined (b ∷ bs) = ((λ e. cc, λ e. cc), λ chain e. cc)

-- A model has no chain exactly when no backend serves it. Its chain holds the backends that serve it:
-- with 0 counting as 2^31 - 1, for each priority those of that priority, each as often and in the
-- order in which the configuration lists them, and none behind one of a higher priority number.
pub build_fallback_chain_lem :
    (model : Text) (bs : List Backend)
    → ((lookup model (build_fallback_chain bs) ≡ none) ↔ (serving model bs ≡ []))
      × ((chain : Chain)
          → lookup model (build_fallback_chain bs) ≡ some chain
          → IsSorted chain
            × ((p : ℤ)
                → keep (has_precedence p) chain ≡ keep (has_precedence p) (serving model bs)))
build_fallback_chain_lem model bs =
    let e = lookup-build_fallback_chain model bs in
    let (missing, found) = sorted-joined (serving model bs) in
    (
      rw e missing,
      λ chain h.
          let is_sort = found chain (rw e at h) in rw is_sort (sort_stable_lem (serving model bs)),
    )
