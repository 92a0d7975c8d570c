-- ===== src/Fusion/Tiers.antt =====
-- The names of the fusion models (internal/fusion/panels.go, `ExtractTier`).
use hive_mind_fusion.Prelude.{
  Text, strip_prefix, strip_prefix_iff, [], ◌++◌, none, ◌≡◌, ◌≢◌, ◌↔◌, ◌⊎◌, inl, inr, refl, arith,
}
use hive_mind_fusion.Fusion.Panels.{prefix_long, prefix_short, extract_tier}

long_not_short : (t : Text) → strip_prefix prefix_long (prefix_short ++ t) ≡ none
unfolding prefix_long prefix_short strip_prefix
long_not_short t = refl

extract_tier-short : (t : Text) → extract_tier (prefix_short ++ t) ≡ t
unfolding extract_tier
extract_tier-short t =
    ground (arith, long_not_short t, (strip_prefix_iff prefix_short (prefix_short ++ t) t).1 refl)

extract_tier-long : (t : Text) → extract_tier (prefix_long ++ t) ≡ t
unfolding extract_tier
extract_tier-long t = ground (arith, (strip_prefix_iff prefix_long (prefix_long ++ t) t).1 refl)

pub extract_tier-empty : extract_tier [] ≡ []
unfolding extract_tier strip_prefix prefix_long prefix_short
extract_tier-empty = refl

extract_tier_sound :
    (m : Text)
    → extract_tier m ≢ []
    → (m ≡ prefix_long ++ extract_tier m) ⊎ (m ≡ prefix_short ++ extract_tier m)
unfolding extract_tier
extract_tier_sound m h = ground (
  arith,
  strip_prefix_iff prefix_long m (extract_tier m),
  strip_prefix_iff prefix_short m (extract_tier m),
)

-- A model name stands for a tier that is not empty exactly when it is the tier's name behind
-- "hivemind/fusion-" or "fusion-".
pub extract_tier_iff :
    (m tier : Text)
    → tier ≢ []
    → (extract_tier m ≡ tier) ↔ ((m ≡ prefix_long ++ tier) ⊎ (m ≡ prefix_short ++ tier))
extract_tier_iff m tier h = (
  λ e. rw e at (extract_tier_sound m (λ empty. h (rw e at empty))),
  λ e. elim e [
    | inl long ↦ rw long (extract_tier-long tier)
    | inr short ↦ rw short (extract_tier-short tier)
  ],
)
