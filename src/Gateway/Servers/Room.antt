-- ===== src/Gateway/Servers/Room.antt =====
-- No goroutine of a server waits at the channel of `Run` (internal/gateway/gateway.go).
use hive_mind_fusion.Prelude.{
  ℕ, ◌+◌, ◌<◌, ◌≤◌, Text, List, [], ◌∷◌, ◌++◌, length, length-append, ◌≡◌, ap, ◌∙◌, refl, arith,
}
use hive_mind_fusion.Gateway.Servers.{
  Server, proxy, admin, metrics, Served, Thread, listening, got, silent, ended, Running, thread,
  put, message, Step, serve_returned, sent, run_returned, Reach, begin, next,
}

-- A place is left for each goroutine that may still send.
abbrev places : Thread → ℕ
places listening = 1
places (got r) = 1
places (ended r) = 0

abbrev used : Running → ℕ
used s =
    length s.err_ch + (places s.proxy_thread + (places s.admin_thread + places s.metrics_thread))

used-put :
    (srv : Server) (t : Thread) (s : Running)
    → used (put srv t s) + places (thread srv s) ≡ used s + places t
used-put proxy t s = omega arith
used-put admin t s = omega arith
used-put metrics t s = omega arith

err_ch-put : (srv : Server) (t : Thread) (s : Running) → (put srv t s).err_ch ≡ s.err_ch
err_ch-put proxy t s = refl
err_ch-put admin t s = refl
err_ch-put metrics t s = refl

used-thread : (srv : Server) (s : Running) → length s.err_ch + places (thread srv s) ≤ used s
used-thread proxy s = omega arith
used-thread admin s = omega arith
used-thread metrics s = omega arith

thread-queue :
    (srv : Server) (q : List Text) (s : Running)
    → thread srv (record s { err_ch = q }) ≡ thread srv s
thread-queue proxy q s = refl
thread-queue admin q s = refl
thread-queue metrics q s = refl

module _ (addr : Server → Text) where
  Step-used : (s t : Running) → Step addr s t → used s ≤ 3 → used t ≤ 3
  Step-used s t (serve_returned srv r at) h =
      let put_lem = used-put srv (got r) s in let was = ap places at in omega arith
  Step-used s t (silent srv r at quiet) h =
      let put_lem = used-put srv (ended r) s in let was = ap places at in omega arith
  Step-used s t (sent srv r e at is room) h =
      let q = s.err_ch ++ (message addr srv e ∷ []) in
      let put_lem = used-put srv (ended r) (record s { err_ch = q }) in
      let was = ap places (thread-queue srv q s ∙ at) in
      let more = length-append s.err_ch (message addr srv e ∷ []) in omega arith
  Step-used s t (run_returned m ms none_yet e) h = let less = ap length e in omega arith

  Reach-used : (s : Running) → Reach addr s → used s ≤ 3
  Reach-used s begin = omega arith
  Reach-used s (next {s = t} r st) = Step-used t s st (Reach-used t r)

  -- While the goroutine of a server has not ended, there is a place for its error.
  pub got-room :
      (s : Running) (srv : Server) (x : Served)
      → Reach addr s
      → thread srv s ≡ got x
      → length s.err_ch < 3
  got-room s srv x r at =
      let bound = Reach-used s r in
      let some_place = used-thread srv s in let its = ap places at in omega arith
