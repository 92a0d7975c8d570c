-- ===== src/Proxy/Chains.antt =====
-- Walking a fallback chain (internal/gateway/proxy.go, `forwardChain`).
use hive_mind_fusion.Prelude.{
  ℕ, suc, ◌+◌, ◌==◌, Text, text, Bool, true, false, not, List, [], ◌∷◌, ◌++◌, none, some,
  if◌then◌else◌, ◌≡◌, ◌⊎◌, inl, inr, refl, arith, length, Bool-cases, Option-cases, ap,
}
use native.Mathlib.Nat.{add-zero}
use hive_mind_fusion.Config.{Backend}
use hive_mind_fusion.Fallback.{Chain, chain_desc}
use hive_mind_fusion.Proxy.{Request, Response, World}
use hive_mind_fusion.Proxy.Attempt.{forward_attempt}

-- What the metrics are told: the backend's name ("none" if there was none) and the status.
pub record Observation : Type 0 where
  pub consumer : Text
  pub model : Text
  pub backend : Text
  pub status : ℕ

-- What the client gets: a backend's answer, or 503 with the model and the names of the chain.
pub data Reply : Type 0 where
  answered : Response → Reply
  unavailable : Text → List Text → Reply

abbrev pub observe : Text → Text → Text → ℕ → Observation
observe consumer model backend status = record {
  consumer = consumer;
  model = model;
  backend = backend;
  status = status;
}

-- `len(tried) > 0`.
abbrev pub is_fallback : List Text → Bool
is_fallback [] = false
is_fallback (name ∷ names) = true

-- The position is not the first.
abbrev pub later : ℕ → Bool
later i = not (i == 0)

module _ (w : World) (validation : Bool) (consumer model : Text) (r : Request) where
  -- The loop from position `i` of the chain, with the names tried so far (the last one first).
  unfoldable pub forward_from : Chain → ℕ → List Text → Chain → Reply × Observation
  forward_from whole i tried [] =
      (unavailable model (chain_desc whole), observe consumer model (text "none") 503)
  forward_from whole i tried (b ∷ bs) =
      let next = forward_from whole (suc i) (b.name ∷ tried) bs in
      if w.healthy i b.name
      then elim (forward_attempt w validation i b (is_fallback tried) r) [
        | none ↦ next
        | some resp ↦ (answered resp, observe consumer model b.name resp.status)
      ]
      else next

  unfoldable pub forward_chain : Chain → Reply × Observation
  forward_chain chain = forward_from chain 0 [] chain

  -- A backend that the loop passes by: unhealthy, or the attempt fails.
  abbrev pub Fails : ℕ → Backend → Type 0
  Fails i b = (w.healthy i b.name ≡ false) ⊎ (forward_attempt w validation i b (later i) r ≡ none)

  abbrev pub AllFail : ℕ → Chain → Type 0
  AllFail i [] = Unit
  AllFail i (b ∷ bs) = Fails i b × AllFail (suc i) bs

  -- The chain from position `i` splits into backends that fail and one that is healthy and answers.
  pub record Served (i : ℕ) (chain : Chain) (resp : Response) (o : Observation) : Type 0 where
    pub before : Chain
    pub backend : Backend
    pub after : Chain
    pub split : chain ≡ before ++ backend ∷ after
    pub failed : AllFail i before
    pub healthy : w.healthy (i + length before) backend.name ≡ true
    pub attempt :
        forward_attempt w validation (i + length before) backend (later (i + length before)) r
        ≡ some resp
    pub observed : o ≡ observe consumer model backend.name resp.status

  Served-cons :
      (i : ℕ) (b : Backend) (bs : Chain) (resp : Response) (o : Observation)
      → Fails i b
      → Served (suc i) bs resp o
      → Served i (b ∷ bs) resp o
  Served-cons i b bs resp o fails s =
      let e : suc i + length s.before ≡ i + suc (length s.before) = omega arith in
      record {
        before = b ∷ s.before;
        backend = s.backend;
        after = s.after;
        split = ap (λ (l : Chain). b ∷ l) s.split;
        failed = (fails, s.failed);
        healthy = rw (← e) s.healthy;
        attempt = rw (← e) s.attempt;
        observed = s.observed;
      }

  Served-head :
      (i : ℕ) (b : Backend) (bs : Chain) (resp : Response)
      → w.healthy i b.name ≡ true
      → forward_attempt w validation i b (later i) r ≡ some resp
      → Served i (b ∷ bs) resp (observe consumer model b.name resp.status)
  Served-head i b bs resp up came = record {
    before = [];
    backend = b;
    after = bs;
    split = refl;
    failed = tt;
    healthy = rw add-zero up;
    attempt = rw add-zero came;
    observed = refl;
  }

  -- What the walk from position `i` comes to.
  abbrev pub Walked : ℕ → Chain → Chain → Reply × Observation → Type 0
  Walked i whole chain result =
      ((resp : Response) × (o : Observation) × Served i chain resp o
        × (result ≡ (answered resp, o)))
      ⊎ (AllFail i chain
          × (result
              ≡ (unavailable model (chain_desc whole), observe consumer model (text "none") 503)))

  Walked-cons :
      (i : ℕ) (b : Backend) (whole bs : Chain) (result : Reply × Observation)
      → Fails i b
      → Walked (suc i) whole bs result
      → Walked i whole (b ∷ bs) result
  Walked-cons i b whole bs result fails (inl (resp, o, s, e)) =
      inl (resp, o, Served-cons i b bs resp o fails s, e)
  Walked-cons i b whole bs result fails (inr (all, e)) = inr ((fails, all), e)

  module _ (whole : Chain) (i : ℕ) (tried : List Text) (fb : is_fallback tried ≡ later i) where
    forward_from-nil :
        forward_from whole i tried []
        ≡ (unavailable model (chain_desc whole), observe consumer model (text "none") 503)
    unfolding forward_from
    forward_from-nil = refl

    forward_from-skip :
        (b : Backend) (bs : Chain)
        → Fails i b
        → forward_from whole i tried (b ∷ bs) ≡ forward_from whole (suc i) (b.name ∷ tried) bs
    unfolding forward_from
    forward_from-skip b bs (inl down) = ground arith
    forward_from-skip b bs (inr lost) = let lost' = rw (← fb) at lost in ground (arith, lost')

    forward_from-serve :
        (b : Backend) (bs : Chain) (resp : Response)
        → w.healthy i b.name ≡ true
        → forward_attempt w validation i b (later i) r ≡ some resp
        → forward_from whole i tried (b ∷ bs)
          ≡ (answered resp, observe consumer model b.name resp.status)
    unfolding forward_from
    forward_from-serve b bs resp up came = let came' = rw (← fb) at came in ground (arith, came')

  forward_from-Walked :
      (whole : Chain) (i : ℕ) (tried : List Text) (chain : Chain)
      → is_fallback tried ≡ later i
      → Walked i whole chain (forward_from whole i tried chain)
  forward_from-Walked whole i tried [] fb = inr (tt, forward_from-nil whole i tried fb)
  forward_from-Walked whole i tried (b ∷ bs) fb =
      let rest = forward_from-Walked whole (suc i) (b.name ∷ tried) bs (ground arith) in
      elim (Bool-cases (w.healthy i b.name)) [
        | inr down ↦
            rw (forward_from-skip whole i tried fb b bs (inl down))
              (Walked-cons i b whole bs _ (inl down) rest)
        | inl up ↦ elim (Option-cases (forward_attempt w validation i b (later i) r)) [
          | inl lost ↦
              rw (forward_from-skip whole i tried fb b bs (inr lost))
                (Walked-cons i b whole bs _ (inr lost) rest)
          | inr (resp, came) ↦ inl (
            resp,
            observe consumer model b.name resp.status,
            Served-head i b bs resp up came,
            forward_from-serve whole i tried fb b bs resp up came,
          )
        ]
      ]

  -- The walk answers with the response of the first backend of the chain that is healthy and whose
  -- attempt succeeds, made as a fallback exactly if it is not the chain's first, and observes that
  -- backend with the response's status. If every backend is unhealthy or fails it answers 503 with the
  -- names of the whole chain, and observes the backend "none" with 503.
  pub forward_chain-Walked : (chain : Chain) → Walked 0 chain chain (forward_chain chain)
  unfolding forward_chain
  forward_chain-Walked chain = forward_from-Walked chain 0 [] chain refl
