-- ===== src/Gateway/Servers/Threads.antt =====
-- The threads of a state of the servers (internal/gateway/gateway.go, `Run`).
use hive_mind_fusion.Prelude.{Text, List, Option, some, ◌≡◌, ◌≢◌, refl, ◌⊎◌, inl, inr}
use hive_mind_fusion.Gateway.Servers.{
  Server, proxy, admin, metrics, Served, nil, server_closed, failed, Thread, ended, Running, thread,
  put, started, reported,
}

pub thread-put :
    (srv other : Server) (t : Thread) (r : Served) (s : Running)
    → thread srv s ≢ ended r
    → thread other s ≡ ended r
    → thread other (put srv t s) ≡ ended r
thread-put proxy proxy t r s live at = absurd (live at)
thread-put admin admin t r s live at = absurd (live at)
thread-put metrics metrics t r s live at = absurd (live at)
thread-put proxy admin t r s live at = at
thread-put proxy metrics t r s live at = at
thread-put admin proxy t r s live at = at
thread-put admin metrics t r s live at = at
thread-put metrics proxy t r s live at = at
thread-put metrics admin t r s live at = at

pub put-thread :
    (srv other : Server) (t u : Thread) (s : Running)
    → thread other (put srv t s) ≡ u
    → (thread other s ≡ u) ⊎ ((other ≡ srv) × (t ≡ u))
put-thread proxy proxy t u s at = inr (refl, at)
put-thread admin admin t u s at = inr (refl, at)
put-thread metrics metrics t u s at = inr (refl, at)
put-thread proxy admin t u s at = inl at
put-thread proxy metrics t u s at = inl at
put-thread admin proxy t u s at = inl at
put-thread admin metrics t u s at = inl at
put-thread metrics proxy t u s at = inl at
put-thread metrics admin t u s at = inl at

pub thread-put_self : (srv : Server) (t : Thread) (s : Running) → thread srv (put srv t s) ≡ t
thread-put_self proxy t s = refl
thread-put_self admin t s = refl
thread-put_self metrics t s = refl

pub thread-err_ch :
    (srv : Server) (q : List Text) (o : Option Text) (s : Running)
    → thread srv (record s { err_ch = q; returned = o }) ≡ thread srv s
thread-err_ch proxy q o s = refl
thread-err_ch admin q o s = refl
thread-err_ch metrics q o s = refl

pub ended-injective : (r q : Served) → ended r ≡ ended q → r ≡ q
ended-injective r q e = cc

pub reported-some : (r : Served) (e : Text) → reported r ≡ some e → r ≡ failed e
reported-some nil e h = cc
reported-some server_closed e h = cc
reported-some (failed x) e h = cc

pub started-listens : (srv : Server) (r : Served) → thread srv started ≢ ended r
started-listens proxy r e = cc
started-listens admin r e = cc
started-listens metrics r e = cc
