-- ===== src/Gateway/Reload.antt =====
-- What the reloads and the health checks of a running gateway keep (internal/gateway/gateway.go, `Reload`;
-- internal/gateway/health.go). A reload is one step here; in the source, requests that come between
-- its two parts still meet the old handlers, with the new backends in the checker.
use hive_mind_fusion.Prelude.{
  ℕ, Text, lookup, Bool, true, same, same_refl, List, [], ◌∷◌, Option, none, some, All, keep, ◌≡◌,
  refl, arith, sym, ◌∙◌, inl, inr, Option-cases, Bool-cases,
}
use mathlib.Core.Path.{subst}
use hive_mind_fusion.Config.{Config, Backend}
use hive_mind_fusion.Fallback.{Chain, sort_stable, build_fallback_chain}
use hive_mind_fusion.Fallback.Sorting.{insert_sorted-All}
use hive_mind_fusion.Fallback.Grouping.{serving, sorted, joined, lookup-build_fallback_chain}
use hive_mind_fusion.Health.{
  BackendHealth, HealthChecker, Probe, seen, update_config, check_one, fresh, new_health_checker,
}
use hive_mind_fusion.Health.Checks.{entry_after, lookup-update_config, lookup-initial_states}
use hive_mind_fusion.Health.Invariant.{probe_entry, lookup-check_one, check_one_missing}
use hive_mind_fusion.Gateway.Assembly.{
  Outside, Live, Gateway, new_proxy, build_proxy_handler, new_gateway, start, reload,
}

-- What changes a running gateway besides requests: a probe that comes back, or a reload.
pub data Change : Type 0 where
  probe_done : ℕ → Text → Probe → Change
  config_reloaded : Config → Change

unfoldable pub change : Outside → Gateway → Change → Gateway
unfolding reload check_one
change out g (probe_done now name probe) = record g { health = check_one now name probe g.health }
change out g (config_reloaded cfg) = reload out cfg g

unfoldable pub changes : Outside → Gateway → List Change → Gateway
unfolding change
changes out g [] = g
changes out g (c ∷ cs) = changes out (change out g c) cs

-- The checker has an entry for the backend.
abbrev pub IsTracked : HealthChecker → Backend → Type 0
IsTracked hc b = (s : BackendHealth) × (lookup b.name hc.states ≡ some s)

-- The gateway runs, and its checker has an entry for each backend of each chain of its proxy.
abbrev pub IsWatched : Gateway → Type 0
IsWatched g =
    (l : Live) × (g.live ≡ some l)
    × ((model : Text) (chain : Chain)
        → lookup model l.proxy.backends ≡ some chain
        → All (IsTracked g.health) chain)

All-map :
    (P Q : Backend → Type 0) (xs : List Backend) → ((b : Backend) → P b → Q b) → All P xs → All Q xs
All-map P Q [] f h = tt
All-map P Q (x ∷ xs) f (p, h) = (f x p, All-map P Q xs f h)

All-keep :
    (P : Backend → Type 0) (test : Backend → Bool) (xs : List Backend)
    → All P xs
    → All P (keep test xs)
All-keep P test [] h = tt
All-keep P test (x ∷ xs) (p, h) = elim (Bool-cases (test x)) [
  | inl is_kept ↦ rw is_kept (p, All-keep P test xs h)
  | inr is_dropped ↦ rw is_dropped (All-keep P test xs h)
]

sort_stable-All : (P : Backend → Type 0) (xs : List Backend) → All P xs → All P (sort_stable xs)
unfolding sort_stable
sort_stable-All P [] h = tt
sort_stable-All P (x ∷ xs) (p, h) =
    insert_sorted-All P x (sort_stable xs) p (sort_stable-All P xs h)

chain-All :
    (P : Backend → Type 0) (bs chain : Chain)
    → sorted (joined none bs) ≡ some chain
    → All P bs
    → All P chain
chain-All P [] chain e h = cc
chain-All P (b ∷ bs) chain e h =
    let same_chain : sort_stable (b ∷ bs) ≡ chain = cc in
    subst (All P) same_chain (sort_stable-All P (b ∷ bs) h)

build_fallback_chain-All :
    (P : Backend → Type 0) (bs : List Backend) (model : Text) (chain : Chain)
    → All P bs
    → lookup model (build_fallback_chain bs) ≡ some chain
    → All P chain
build_fallback_chain-All P bs model chain h e =
    chain-All P (serving model bs) chain (sym (lookup-build_fallback_chain model bs) ∙ e)
      (All-keep P (λ (b : Backend). same b.model model) bs h)

All-seen :
    (cs bs : List Backend)
    → ((name : Text) → seen bs name ≡ true → seen cs name ≡ true)
    → All (λ (b : Backend). seen cs b.name ≡ true) bs
unfolding seen
All-seen cs [] f = tt
All-seen cs (b ∷ bs) f =
    (f b.name (ground (arith, same_refl b.name)), All-seen cs bs (λ name h. f name (ground arith)))

-- Every chain built from these backends has only backends that are seen.
chains-seen :
    (P : Backend → Type 0) (bs : List Backend) (model : Text) (chain : Chain)
    → ((b : Backend) → seen bs b.name ≡ true → P b)
    → lookup model (build_fallback_chain bs) ≡ some chain
    → All P chain
chains-seen P bs model chain f e =
    build_fallback_chain-All P bs model chain
      (All-map (λ (b : Backend). seen bs b.name ≡ true) P bs f (All-seen bs bs (λ name h. h))) e

entry_after-some : (o : Option BackendHealth) → (s : BackendHealth) × (entry_after o true ≡ some s)
entry_after-some none = (_, refl)
entry_after-some (some s) = (s, refl)

update_config-IsTracked :
    (cfg : Config) (hc : HealthChecker) (b : Backend)
    → seen cfg.backends b.name ≡ true
    → IsTracked (update_config cfg hc) b
update_config-IsTracked cfg hc b h =
    let (s, e) = entry_after-some (lookup b.name hc.states) in
    (s, ground (arith, lookup-update_config cfg hc b.name, e, h))

new_health_checker-IsTracked :
    (cfg : Config) (b : Backend)
    → seen cfg.backends b.name ≡ true
    → IsTracked (new_health_checker cfg) b
unfolding new_health_checker
new_health_checker-IsTracked cfg b h =
    (fresh, lookup-initial_states [] cfg.backends b.name ∙ rw h refl)

check_one-IsTracked :
    (now : ℕ) (name : Text) (probe : Probe) (hc : HealthChecker) (b : Backend)
    → IsTracked hc b
    → IsTracked (check_one now name probe hc) b
check_one-IsTracked now name probe hc b (s, e) = elim (Option-cases (lookup name hc.states)) [
  | inl gone ↦ rw (check_one_missing now name probe hc gone) (s, e)
  | inr (old, found) ↦
      let after = lookup-check_one now name probe hc old b.name found in
      elim (Bool-cases (same name b.name)) [
        | inl mine ↦ (probe_entry now hc.threshold probe old, after ∙ rw mine refl)
        | inr other ↦ (s, after ∙ rw other e)
      ]
]

start-IsWatched : (out : Outside) (cfg : Config) → IsWatched (start out (new_gateway cfg))
unfolding start new_gateway build_proxy_handler new_proxy
start-IsWatched out cfg = (
  build_proxy_handler out cfg,
  refl,
  λ model chain e.
      chains-seen (IsTracked (new_health_checker cfg)) cfg.backends model chain
        (new_health_checker-IsTracked cfg) e,
)

change-IsWatched :
    (out : Outside) (g : Gateway) (c : Change) → IsWatched g → IsWatched (change out g c)
unfolding change reload build_proxy_handler new_proxy
change-IsWatched out g (probe_done now name probe) (l, on, tracked) = (
  l,
  on,
  λ model chain e.
      All-map (IsTracked g.health) (IsTracked (check_one now name probe g.health)) chain
        (check_one-IsTracked now name probe g.health) (tracked model chain e),
)
change-IsWatched out g (config_reloaded cfg) h = (
  build_proxy_handler out cfg,
  refl,
  λ model chain e.
      chains-seen (IsTracked (update_config cfg g.health)) cfg.backends model chain
        (update_config-IsTracked cfg g.health) e,
)

changes-keep-IsWatched :
    (out : Outside) (g : Gateway) (cs : List Change) → IsWatched g → IsWatched (changes out g cs)
unfolding changes
changes-keep-IsWatched out g [] h = h
changes-keep-IsWatched out g (c ∷ cs) h =
    changes-keep-IsWatched out (change out g c) cs (change-IsWatched out g c h)

-- After the start and any sequence of probes of any names and whole reloads, one after another: the gateway has a proxy, and the health
-- checker has an entry for each backend in each chain of that proxy, so that none of them is skipped
-- for being unknown to the checker.
pub changes-IsWatched :
    (out : Outside) (cfg : Config) (cs : List Change)
    → IsWatched (changes out (start out (new_gateway cfg)) cs)
changes-IsWatched out cfg cs =
    changes-keep-IsWatched out (start out (new_gateway cfg)) cs (start-IsWatched out cfg)
