-- ===== src/Auth.antt =====
-- Authentication (internal/gateway/auth.go), and the known consumers that the gateway hands to it
-- (`buildKnownConsumers` of internal/gateway/gateway.go). A set is a map to `tt`.
pub mod Identity
mod Tests
use hive_mind_fusion.Prelude.{
  text_or_empty, get_header, Text, text, same, is_empty, strip_prefix, to_lower, Map, lookup,
  insert, has_key, Bool, true, false, not, ◌&&◌, List, [], ◌∷◌, Option, none, some, if◌then◌else◌,
}
use hive_mind_fusion.Config.{Config, ConsumerLimit}

abbrev pub Names : Type 0
Names = Map (Unit {0})

unfoldable pub add_values : Names → Map Text → Names
add_values m [] = m
add_values m ((key, name) ∷ ks) = add_values (insert name tt m) ks

unfoldable pub add_keys : Names → Map ConsumerLimit → Names
add_keys m [] = m
add_keys m ((name, limit) ∷ ls) = add_keys (insert name tt m) ls

unfoldable pub build_known_consumers : Config → Map Text × Names
build_known_consumers cfg = (
  cfg.consumers.api_keys,
  insert (text "__default__") tt
      (add_keys (add_values [] cfg.consumers.api_keys) cfg.rate_limit.consumers),
)

-- What the middleware is built from: the two environment variables and the two tables.
pub record Auth : Type 0 where
  pub enforced : Bool
  pub master_token : Text
  pub api_keys : Map Text
  pub known_consumers : Names

-- `strings.EqualFold` on ASCII.
unfoldable pub equal_fold : Text → Text → Bool
equal_fold a b = same (to_lower a) (to_lower b)

unfoldable pub new_auth : (Text → Text) → Map Text → Names → Auth
new_auth env api_keys known = record {
  enforced = equal_fold (env (text "HIVEMIND_REQUIRE_AUTH")) (text "true");
  master_token = env (text "HIVEMIND_AUTH_TOKEN");
  api_keys = api_keys;
  known_consumers = known;
}

unfoldable pub bearer : Text
unfolding text
bearer = text "Bearer "

-- The consumer behind a bearer key: "" where there is none.
unfoldable pub of_key : Auth → Text → Text
of_key a key =
    if not (is_empty a.master_token) && same key a.master_token
    then text "__master__"
    else text_or_empty (lookup key a.api_keys)

unfoldable pub of_authorization : Auth → Text → Text
of_authorization a value = elim (strip_prefix bearer value) [ none ↦ [] | some key ↦ of_key a key ]

unfoldable pub of_consumer_header : Auth → Text → Text
of_consumer_header a c = if not (is_empty c) && has_key c a.known_consumers then c else []

-- The `consumer` variable at the end of the two checks.
unfoldable pub authenticate : Auth → Map Text → Text
authenticate a header =
    let consumer = of_authorization a (get_header (text "Authorization") header) in
    if is_empty consumer
    then of_consumer_header a (get_header (text "X-HiveMind-Consumer") header)
    else consumer

-- 401, or the next handler with the identity that is put on the context (`none` in permissive mode).
pub data Decision : Type 0 where
  unauthorized : Decision
  proceed : Option Text → Decision

unfoldable pub decide : Auth → Map Text → Decision
decide a header =
    if a.enforced
    then (if is_empty (authenticate a header)
        then unauthorized
        else proceed (some (authenticate a header)))
    else proceed none
