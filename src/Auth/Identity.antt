-- ===== src/Auth/Identity.antt =====
-- Who gets through (internal/gateway/auth.go).
use hive_mind_fusion.Prelude.{
  text_or_empty, get_header, Text, text, same, same_iff, same_refl, is_empty, strip_prefix,
  strip_prefix_iff, Map, lookup, lookup-insert_self, has_key, true, not, ◌&&◌, [], ◌++◌, Option,
  none, some, ◌≡◌, ◌≢◌, inl, inr, refl, ap, arith, Option-cases, Bool-cases, is_some,
}
use hive_mind_fusion.Config.{Config}
use hive_mind_fusion.Auth.{
  add_values, add_keys, build_known_consumers, Auth, bearer, of_key, of_authorization,
  of_consumer_header, authenticate, unauthorized, proceed, decide, new_auth,
}

-- The request's headers prove this identity: a bearer token that is the master token or a configured
-- key, or a consumer header with a known name.
pub data Proves (a : Auth) (header : Map Text) (who : Text) : Type 0 where
  master :
      a.master_token ≢ []
      → get_header (text "Authorization") header ≡ bearer ++ a.master_token
      → who ≡ text "__master__"
      → Proves a header who
  key :
      (k : Text)
      → get_header (text "Authorization") header ≡ bearer ++ k
      → lookup k a.api_keys ≡ some who
      → Proves a header who
  named :
      get_header (text "X-HiveMind-Consumer") header ≡ who
      → has_key who a.known_consumers ≡ true
      → Proves a header who

master-ne-nil : text "__master__" ≢ []
unfolding text
master-ne-nil e = cc

of_authorization-none :
    (a : Auth) (v : Text) → strip_prefix bearer v ≡ none → of_authorization a v ≡ []
unfolding of_authorization
of_authorization-none a v h = ground arith

of_authorization-some :
    (a : Auth) (v k : Text) → strip_prefix bearer v ≡ some k → of_authorization a v ≡ of_key a k
unfolding of_authorization
of_authorization-some a v k h = ground arith

of_key-master : (a : Auth) → a.master_token ≢ [] → of_key a a.master_token ≡ text "__master__"
unfolding of_key
of_key-master a h = ground (arith, same_refl a.master_token)

of_key-ne-nil :
    (a : Auth) (k who : Text) → lookup k a.api_keys ≡ some who → who ≢ [] → of_key a k ≢ []
unfolding of_key
of_key-ne-nil a k who e h = ground (arith, master-ne-nil)

of_consumer_header_lem :
    (a : Auth) (c : Text)
    → of_consumer_header a c ≢ []
    → (of_consumer_header a c ≡ c) × (has_key c a.known_consumers ≡ true)
unfolding of_consumer_header
of_consumer_header_lem a c h = ground arith

of_consumer_header-known :
    (a : Auth) (c : Text) → c ≢ [] → has_key c a.known_consumers ≡ true → of_consumer_header a c ≡ c
unfolding of_consumer_header
of_consumer_header-known a c h k = ground arith

module _ (a : Auth) (header : Map Text) where
  abbrev authorization : Text
  authorization = get_header (text "Authorization") header

  of_key-Proves :
      (k : Text) → authorization ≡ bearer ++ k → of_key a k ≢ [] → Proves a header (of_key a k)
  of_key-Proves k h some_one =
      elim (Bool-cases (not (is_empty a.master_token) && same k a.master_token)) [
        | inl is_master ↦
            let e : of_key a k ≡ text "__master__" = unfold of_key in rw is_master refl in
            let same_key : k ≡ a.master_token = ground (arith, same_iff k a.master_token) in
            master (ground arith) (rw (← same_key) h) e
        | inr no_master ↦
            let e : of_key a k ≡ text_or_empty (lookup k a.api_keys) =
              unfold of_key in rw no_master refl in
            elim (Option-cases (lookup k a.api_keys)) [
              | inl missing ↦ absurd (some_one (rw (e, missing)))
              | inr (name, found) ↦ key k h (rw (e, found) refl)
            ]
      ]

  of_authorization-Proves :
      of_authorization a authorization ≢ [] → Proves a header (of_authorization a authorization)
  of_authorization-Proves some_one = elim (Option-cases (strip_prefix bearer authorization)) [
    | inl other ↦ absurd (some_one (of_authorization-none a authorization other))
    | inr (k, found) ↦
        let e = of_authorization-some a authorization k found in
        rw e (
          of_key-Proves k ((strip_prefix_iff bearer authorization k).0 found)
            (λ n. some_one (rw e n)))
  ]

  of_consumer_header-Proves :
      (c : Text)
      → get_header (text "X-HiveMind-Consumer") header ≡ c
      → of_consumer_header a c ≢ []
      → Proves a header (of_consumer_header a c)
  of_consumer_header-Proves c h some_one =
      let (e, known) = of_consumer_header_lem a c some_one in rw e (named h known)

  authenticate-Proves : authenticate a header ≢ [] → Proves a header (authenticate a header)
  unfolding authenticate
  authenticate-Proves some_one = elim (Bool-cases (is_empty (of_authorization a authorization))) [
    | inl none_yet ↦ rw none_yet (
        of_consumer_header-Proves (get_header (text "X-HiveMind-Consumer") header) refl
          (rw none_yet at some_one))
    | inr found ↦ rw found (of_authorization-Proves (rw found at some_one))
  ]

  Proves-authenticate : (who : Text) → Proves a header who → who ≢ [] → authenticate a header ≢ []
  unfolding authenticate
  Proves-authenticate who (master set given e) some_one =
      let found =
        of_authorization-some a authorization a.master_token
          ((strip_prefix_iff bearer authorization a.master_token).1 given) in
      let is_master = of_key-master a set in ground (arith, found, is_master, master-ne-nil)
  Proves-authenticate who (key k given e) some_one =
      let found =
        of_authorization-some a authorization k
          ((strip_prefix_iff bearer authorization k).1 given) in
      ground (arith, found, of_key-ne-nil a k who e some_one)
  Proves-authenticate who (named given known) some_one =
      ground (arith, of_consumer_header-known a who some_one known)

-- With authentication enforced, a request that goes on carries a name that its headers prove: by the
-- master token or a configured key as bearer token, or by the consumer header with a known name. And a
-- request whose headers prove any name that is not empty is not turned away.
pub decide_lem :
    (a : Auth) (header : Map Text)
    → a.enforced ≡ true
    → ((who : Option Text)
        → decide a header ≡ proceed who
        → (name : Text) × (who ≡ some name) × (name ≢ []) × Proves a header name)
      × ((name : Text) → name ≢ [] → Proves a header name → decide a header ≢ unauthorized)
unfolding decide
decide_lem a header on =
    let who = authenticate a header in
    (
      λ o h. elim (Bool-cases (is_empty who)) [
        | inl nobody ↦ absurd (ground arith)
        | inr somebody ↦
            let found : who ≢ [] = ground arith in
            (who, ground arith, found, authenticate-Proves a header found)
      ],
      λ name some_one p h.
          let found = Proves-authenticate a header name p some_one in ground (arith, found),
    )

default-ne-nil : text "__default__" ≢ []
unfolding text
default-ne-nil e = cc

-- The middleware as the gateway builds it.
abbrev pub auth_of : Config → (Text → Text) → Auth
auth_of cfg env = let (keys, known) = build_known_consumers cfg in new_auth env keys known

default-known :
    (cfg : Config) (env : Text → Text)
    → has_key (text "__default__") (auth_of cfg env).known_consumers ≡ true
unfolding new_auth build_known_consumers
default-known cfg env =
    let names = add_keys (add_values [] cfg.consumers.api_keys) cfg.rate_limit.consumers in
    ap is_some (lookup-insert_self (text "__default__") tt names)

-- Whatever the configuration, and with authentication enforced, a request with the consumer header
-- "__default__" is not turned away.
pub decide-default :
    (cfg : Config) (env : Text → Text) (header : Map Text)
    → (auth_of cfg env).enforced ≡ true
    → get_header (text "X-HiveMind-Consumer") header ≡ text "__default__"
    → decide (auth_of cfg env) header ≢ unauthorized
decide-default cfg env header on given =
    (decide_lem (auth_of cfg env) header on).1 (text "__default__") default-ne-nil
      (named given (default-known cfg env))
