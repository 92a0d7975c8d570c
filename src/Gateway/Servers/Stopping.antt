-- ===== src/Gateway/Servers/Stopping.antt =====
-- When a shutdown flushes the usage (internal/gateway/gateway.go, `Shutdown`).
use hive_mind_fusion.Prelude.{
  Text, Bool, true, false, List, [], ◌∷◌, Option, none, some, ◌≡◌, ◌⊎◌, Any,
}
use hive_mind_fusion.Consumer.Persist.{
  Encode, Attempt, snapshot, persist, waiting, finished, System, Reach,
}
use hive_mind_fusion.Gateway.Servers.{Server, ServerErrors}

-- The usage file is written once more, if the goroutine is not at it already.
abbrev pub Flushes : System → Type 0
Flushes sys =
    (encode : Encode) (a : Attempt)
    → sys.pc ≡ waiting
    → Reach encode sys
        (record sys { pc = finished; disk = persist encode a (snapshot sys.tracker) sys.disk })

module _ (there : Server → Bool) (errors : ServerErrors) where
  abbrev pub Closed : List Server → Type 0
  Closed order = (srv : Server) → Any (λ x. x ≡ srv) order → there srv ≡ true → errors srv ≡ none

  abbrev pub Fails : Text → Type 0
  Fails e = (srv : Server) × (there srv ≡ true) × (errors srv ≡ some e)

  abbrev Found : List Server → List Text → Type 0
  Found order [] = Closed order
  Found order (e ∷ es) = Fails e

  -- What a shutdown comes to, from its result.
  abbrev pub Ends : List Server → System → Option (System × Option Text) → Type 0
  Ends order sys result =
      (Closed order × (sys.stopped ≡ true) × (result ≡ none))
      ⊎ ((Closed order
            × (sys.stopped ≡ false)
            × (result ≡ some (record sys { stopped = true }, none))
            × Flushes (record sys { stopped = true }))
          ⊎ ((e : Text) × Fails e × (result ≡ some (sys, some e))))
