-- ===== src/Fusion/Panels.antt =====
-- Panels and tiers (internal/fusion/panels.go, and `New`, `Reload`, `HasTier`, `TierNames`, `Panels`
-- of internal/fusion/fusion.go).
use hive_mind_fusion.Prelude.{
  pos, is_zero, min, Text, text, is_empty, strip_prefix, Map, has_key, Bool, not, List, [], ◌∷◌,
  none, some, if◌then◌else◌, length, map,
}
use hive_mind_fusion.Config.{FusionPanel}
use hive_mind_fusion.Config
use hive_mind_fusion.Fusion.{Panel, Engine}

unfoldable pub resolve_panel : Text → FusionPanel → Panel
resolve_panel name cp = record {
  name = name;
  panelists = cp.panelists;
  judge = cp.judge;
  synth = cp.synth;
  deliberator = if is_empty cp.deliberator then text "glm-5.1" else cp.deliberator;
  timeout_ms = if is_zero cp.timeout_ms then pos 60000 else cp.timeout_ms;
  min_quorum = if is_zero cp.min_quorum then pos (min 2 (length cp.panelists)) else cp.min_quorum;
}

unfoldable pub resolve_panels : Map FusionPanel → Map Panel
resolve_panels [] = []
resolve_panels ((name, cp) ∷ ps) = (name, resolve_panel name cp) ∷ resolve_panels ps

unfoldable pub new_engine : Config.Fusion → Engine
new_engine cfg = record { panels = resolve_panels cfg.panels }

unfoldable pub reload_engine : Config.Fusion → Engine → Engine
reload_engine cfg e = record { panels = resolve_panels cfg.panels }

unfoldable pub has_tier : Text → Engine → Bool
has_tier tier e = has_key tier e.panels

unfoldable pub tier_names : Engine → List Text
tier_names e = map (λ (p : Text × Panel). p.0) e.panels

unfoldable pub prefix_long : Text
unfolding text
prefix_long = text "hivemind/fusion-"

unfoldable pub prefix_short : Text
unfolding text
prefix_short = text "fusion-"

-- "" where neither prefix fits.
unfoldable pub extract_tier : Text → Text
extract_tier model = elim (strip_prefix prefix_long model) [
  | some tier ↦ tier
  | none ↦ elim (strip_prefix prefix_short model) [ some tier ↦ tier | none ↦ [] ]
]

unfoldable pub is_fusion_model : Text → Bool
is_fusion_model model = not (is_empty (extract_tier model))
