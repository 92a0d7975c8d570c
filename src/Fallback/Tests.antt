-- ===== src/Fallback/Tests.antt =====
-- Chains of small configurations (internal/gateway/fallback.go).
use hive_mind_fusion.Prelude.{
  Text, text, same, lookup, insert, Option, none, some, List, [], ◌∷◌, ℤ, pos, keep, ◌≡◌, ◌↔◌, refl,
}
use hive_mind_fusion.Config.{Backend}
use hive_mind_fusion.Config.Samples.{sample_backend}
use hive_mind_fusion.Fallback.{
  Chain, rank, less, insert_sorted, sort_stable, group, sort_chains, build_fallback_chain,
  chain_desc,
}
use hive_mind_fusion.Fallback.Sorting.{IsSorted, has_precedence}
use hive_mind_fusion.Fallback.Grouping.{serving, build_fallback_chain_lem}

abbrev backends : List Backend
backends =
    sample_backend (text "a") (text "m") (pos 0)
    ∷ sample_backend (text "b") (text "m") (pos 2)
    ∷ sample_backend (text "c") (text "n") (pos 1)
    ∷ sample_backend (text "d") (text "m") (pos 2)
    ∷ sample_backend (text "e") (text "m") (pos 1)
    ∷ []

abbrev names : Option Chain → List Text
names none = []
names (some chain) = chain_desc chain

chain_of_m :
    names (lookup (text "m") (build_fallback_chain backends))
    ≡ text "e" ∷ text "b" ∷ text "d" ∷ text "a" ∷ []
unfolding chain_desc build_fallback_chain sort_chains group sort_stable insert_sorted less rank
    lookup insert text same
chain_of_m = refl

-- A priority that is larger than the one that 0 stands for sorts behind it.
abbrev large : List Backend
large =
    sample_backend (text "a") (text "m") (pos 2_147_483_648)
    ∷ sample_backend (text "b") (text "m") (pos 0)
    ∷ []

zero_not_last : names (lookup (text "m") (build_fallback_chain large)) ≡ text "b" ∷ text "a" ∷ []
unfolding chain_desc build_fallback_chain sort_chains group sort_stable insert_sorted less rank
    lookup insert text same
zero_not_last = refl

build_fallback_chain_lem_example :
    ((lookup (text "m") (build_fallback_chain backends) ≡ none)
      ↔ (serving (text "m") backends ≡ []))
    × ((chain : Chain)
        → lookup (text "m") (build_fallback_chain backends) ≡ some chain
        → IsSorted chain
          × ((p : ℤ)
              → keep (has_precedence p) chain
                ≡ keep (has_precedence p) (serving (text "m") backends)))
build_fallback_chain_lem_example = build_fallback_chain_lem (text "m") backends
