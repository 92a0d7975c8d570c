-- ===== src/Auth/Tests.antt =====
-- Requests at the authentication of a small configuration (internal/gateway/auth.go).
use hive_mind_fusion.Prelude.{
  get_header, Text, text, same, strip_prefix, to_lower, Map, lookup, insert, true, Option, some, [],
  ◌∷◌, if◌then◌else◌, ◌≡◌, ◌≢◌, refl,
}
use hive_mind_fusion.Config.Samples.{sample}
use hive_mind_fusion.Auth.{
  Auth, add_values, add_keys, build_known_consumers, equal_fold, new_auth, bearer, of_key,
  of_authorization, of_consumer_header, authenticate, unauthorized, proceed, decide,
}
use hive_mind_fusion.Auth.Identity.{Proves, decide_lem, auth_of, decide-default}

abbrev env : Text → Text
env name =
    if same name (text "HIVEMIND_REQUIRE_AUTH")
    then text "True"
    else if same name (text "HIVEMIND_AUTH_TOKEN")
    then text "root"
    else []

abbrev auth : Auth
auth = auth_of sample env

enforced : auth.enforced ≡ true
unfolding build_known_consumers new_auth equal_fold to_lower text same
enforced = refl

abbrev with_key : Map Text
with_key = (text "Authorization", text "Bearer k") ∷ []

proceeds : decide auth with_key ≡ proceed (some (text "alice"))
unfolding decide authenticate of_authorization of_key of_consumer_header build_known_consumers
    add_values add_keys new_auth equal_fold bearer strip_prefix to_lower lookup insert text same
proceeds = refl

unknown_key : decide auth ((text "Authorization", text "Bearer x") ∷ []) ≡ unauthorized
unfolding decide authenticate of_authorization of_key of_consumer_header build_known_consumers
    add_values add_keys new_auth equal_fold bearer strip_prefix to_lower lookup insert text same
unknown_key = refl

decide_lem_example :
    ((who : Option Text)
      → decide auth with_key ≡ proceed who
      → (name : Text) × (who ≡ some name) × (name ≢ []) × Proves auth with_key name)
    × ((name : Text) → name ≢ [] → Proves auth with_key name → decide auth with_key ≢ unauthorized)
decide_lem_example = decide_lem auth with_key enforced

abbrev default_header : Map Text
default_header = (text "X-HiveMind-Consumer", text "__default__") ∷ []

default_given : get_header (text "X-HiveMind-Consumer") default_header ≡ text "__default__"
unfolding lookup text same
default_given = refl

decide-default_example : decide auth default_header ≢ unauthorized
decide-default_example = decide-default sample env default_header enforced default_given
