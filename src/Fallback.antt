-- ===== src/Fallback.antt =====
-- The fallback chains of internal/gateway/fallback.go. A chain holds the backends themselves, where
-- the source holds pointers into the configuration, which nothing writes to afterwards.
-- `sort.SliceStable` is an insertion sort here: the order that a stable sort gives is unique.
pub mod Sorting
pub mod Grouping
mod Tests
use hive_mind_fusion.Prelude.{
  ℕ, Text, Map, lookup, insert, List, [], ◌∷◌, ◌++◌, Option, none, some, Bool, ℤ, pos, is_zero,
  ltb_ℤ, if◌then◌else◌, map,
}
use hive_mind_fusion.Config.{Backend}

abbrev pub Chain : Type 0
Chain = List Backend

-- A priority of 0 counts as 2^31 - 1.
unfoldable pub rank : Backend → ℤ
rank b = if is_zero b.priority then pos 2_147_483_647 else b.priority

unfoldable pub less : Backend → Backend → Bool
less a b = ltb_ℤ (rank a) (rank b)

unfoldable pub insert_sorted : Backend → Chain → Chain
insert_sorted b [] = b ∷ []
insert_sorted b (x ∷ xs) =
    let rest = insert_sorted b xs in if less x b then x ∷ rest else b ∷ x ∷ xs

unfoldable pub sort_stable : Chain → Chain
sort_stable [] = []
sort_stable (b ∷ bs) = insert_sorted b (sort_stable bs)

-- `chains[model]`, nil where there is none.
abbrev pub chain_or_nil : Option Chain → Chain
chain_or_nil none = []
chain_or_nil (some c) = c

-- `chains[b.Model] = append(chains[b.Model], b)` for every backend.
unfoldable pub group : Map Chain → List Backend → Map Chain
group m [] = m
group m (b ∷ bs) = group (insert b.model (chain_or_nil (lookup b.model m) ++ b ∷ []) m) bs

unfoldable pub sort_chains : Map Chain → Map Chain
sort_chains [] = []
sort_chains ((model, chain) ∷ m) = (model, sort_stable chain) ∷ sort_chains m

unfoldable pub build_fallback_chain : List Backend → Map Chain
build_fallback_chain bs = sort_chains (group [] bs)

-- The names that `chainDesc` joins.
unfoldable pub chain_desc : Chain → List Text
chain_desc chain = map (λ (b : Backend). b.name) chain
