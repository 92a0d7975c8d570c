-- ===== src/Gateway/Servers/Results.antt =====
-- What `Run` returns (internal/gateway/gateway.go).
use mathlib.Core.Path.{subst}
use hive_mind_fusion.Prelude.{
  ap, length, ◌<◌, Text, List, [], ◌∷◌, ◌++◌, Option, none, some, ◌≡◌, ◌≢◌, refl, sym, ◌∙◌, ◌⊎◌,
  inl, inr, Any, Any-append, Any-left, Any-right,
}
use hive_mind_fusion.Gateway.Servers.Threads.{
  thread-put, put-thread, thread-put_self, thread-err_ch, ended-injective, reported-some,
  started-listens,
}
use hive_mind_fusion.Gateway.Servers.Room.{got-room}
use hive_mind_fusion.Gateway.Servers.{
  got, silent, Server, proxy, admin, metrics, Served, failed, Thread, ended, Running, thread, put,
  started, reported, message, Step, serve_returned, sent, run_returned, Reach, begin, next,
}

-- The errors that left the goroutines, in the order of the channel.
abbrev outs : Option Text → List Text → List Text
outs none ms = ms
outs (some m) ms = m ∷ ms

abbrev errors : Running → List Text
errors s = outs s.returned s.err_ch

errors-put : (srv : Server) (t : Thread) (s : Running) → errors (put srv t s) ≡ errors s
errors-put proxy t s = refl
errors-put admin t s = refl
errors-put metrics t s = refl

outs-append :
    (o : Option Text) (ms : List Text) (m : Text) → outs o (ms ++ (m ∷ [])) ≡ outs o ms ++ (m ∷ [])
outs-append none ms m = refl
outs-append (some x) ms m = refl

module _ (addr : Server → Text) where
  abbrev pub FromFailed : Running → Text → Type 0
  FromFailed s m =
      (srv : Server) × (e : Text) × (thread srv s ≡ ended (failed e)) × (m ≡ message addr srv e)

  -- The errors are those of the servers that failed, all of them.
  record Inv (s : Running) : Type 0 where
    from : (m : Text) → Any (λ x. x ≡ m) (errors s) → FromFailed s m
    there :
        (srv : Server) (e : Text)
        → thread srv s ≡ ended (failed e)
        → Any (λ x. x ≡ message addr srv e) (errors s)

  -- A goroutine goes on without a send.
  Inv-put :
      (srv : Server) (t : Thread) (s : Running)
      → ((r : Served) → thread srv s ≢ ended r)
      → ((e : Text) → t ≢ ended (failed e))
      → Inv s
      → Inv (put srv t s)
  Inv-put srv t s live quiet i = record {
    from = λ m h.
        let (other, e, failed_at, is) = i.from m (rw (sym (errors-put srv t s)) h) in
        (other, e, thread-put srv other t (failed e) s (live (failed e)) failed_at, is);
    there = λ other e h.
        rw (errors-put srv t s) (elim (put-thread srv other t (ended (failed e)) s h) [
          | inl before ↦ i.there other e before
          | inr (same_one, new) ↦ absurd (quiet e new)
        ]);
  }

  Step-Inv : (s t : Running) → Step addr s t → Inv s → Inv t
  Step-Inv s t (serve_returned srv r at) i =
      Inv-put srv (got r) s (λ x e. let y = sym at ∙ e in cc) (λ x e. cc) i
  Step-Inv s t (silent srv r at quiet) i =
      Inv-put srv (ended r) s (λ x e. let y = sym at ∙ e in cc)
        (λ x e. let y = ap reported (ended-injective r (failed x) e) in cc) i
  Step-Inv s t (run_returned m ms none_yet e) i =
      let eq : errors s ≡ m ∷ ms = rw (none_yet, e) refl in
      record {
        from = λ x h.
            let (srv, err, failed_at, is) = i.from x (subst (Any (λ y. y ≡ x)) (sym eq) h) in
            (srv, err, thread-err_ch srv ms (some m) s ∙ failed_at, is);
        there = λ srv err h.
            subst (Any (λ y. y ≡ message addr srv err)) eq
              (i.there srv err (sym (thread-err_ch srv ms (some m) s) ∙ h));
      }
  Step-Inv s t (sent srv r e at is_error room) i =
      let q = s.err_ch ++ (message addr srv e ∷ []) in
      let s' = record s { err_ch = q } in
      let same_thread = λ (other : Server). thread-err_ch other q s.returned s in
      let eq : errors t ≡ errors s ++ (message addr srv e ∷ []) =
        errors-put srv (ended r) s' ∙ outs-append s.returned s.err_ch (message addr srv e) in
      record {
        from = λ m h.
            elim (Any-append (λ y. y ≡ m) (errors s) (message addr srv e ∷ [])
              (subst (Any (λ y. y ≡ m)) eq h)) [
                | inl before ↦
                    let (other, err, failed_at, is) = i.from m before in
                    (
                      other,
                      err,
                      thread-put srv other (ended r) (failed err) s'
                          (λ x. let y = sym at ∙ (sym (same_thread srv) ∙ x) in cc)
                          (same_thread other ∙ failed_at),
                      is,
                    )
                | inr (inl is) ↦ (
                  srv,
                  e,
                  thread-put_self srv (ended r) s' ∙ ap ended (reported-some r e is_error),
                  sym is,
                )
                | inr (inr nowhere) ↦ elim nowhere [ ]
              ];
        there = λ other err h.
            subst (Any (λ y. y ≡ message addr other err)) (sym eq)
              (elim (put-thread srv other (ended r) (ended (failed err)) s' h) [
                | inl before ↦
                    Any-left (λ y. y ≡ message addr other err) (errors s) (message addr srv e ∷ [])
                      (i.there other err (sym (same_thread other) ∙ before))
                | inr (same_one, new) ↦
                    Any-right (λ y. y ≡ message addr other err) (errors s) (message addr srv e ∷ [])
                      (inl (
                        let es : e ≡ err =
                          let y = sym is_error ∙ ap reported (ended-injective r (failed err) new) in
                          cc in
                        rw (same_one, es) refl))
              ]);
      }

  ready_of :
      (s : Running) (m : Text) (o : Option Text) (ms : List Text)
      → s.returned ≡ o
      → s.err_ch ≡ ms
      → Any (λ x. x ≡ m) (outs o ms)
      → (s.returned ≢ none) ⊎ ((t : Running) × Step addr s t × (t.returned ≢ none))
  ready_of s m (some x) ms e f h = inl (λ gone. let y = sym e ∙ gone in cc)
  ready_of s m none [] e f h = elim h [ ]
  ready_of s m none (x ∷ ms) e f h =
      inr (record s { err_ch = ms; returned = some x }, run_returned x ms e f, λ gone. cc)

  ready :
      (s : Running) (m : Text)
      → Any (λ x. x ≡ m) (errors s)
      → (s.returned ≢ none) ⊎ ((t : Running) × Step addr s t × (t.returned ≢ none))
  ready s m h = ready_of s m s.returned s.err_ch refl refl h

  not_returned :
      (s : Running)
      → Inv s
      → ((srv : Server) (e : Text) → thread srv s ≢ ended (failed e))
      → (o : Option Text) → s.returned ≡ o
      → s.returned ≡ none
  not_returned s i none_failed none e = e
  not_returned s i none_failed (some m) e =
      let (srv, err, at, is) = i.from m (rw e (inl refl)) in absurd (none_failed srv err at)

  Inv-started : Inv started
  Inv-started = record {
    from = λ m h. elim h [ ];
    there = λ srv e h. absurd (started-listens srv (failed e) h);
  }

  Reach-Inv : (s : Running) → Reach addr s → Inv s
  Reach-Inv s begin = Inv-started
  Reach-Inv s (next {s = t} r st) = Step-Inv t s st (Reach-Inv t r)

  -- In every order of the goroutines' steps. (1) What `Run` returned is the error of a server that failed for another reason
  -- than ErrServerClosed, under its address. (2) Once a server has failed so and sent its error, `Run` has returned or an
  -- error is ready for it, so that it can return. (3) While no server has failed so, `Run` has not returned.
  -- (4) For each goroutine that `ListenAndServe` returned to and that may still send there is a place in the channel, whether or not `Run` still reads.
  pub run_lem :
      (s : Running)
      → Reach addr s
      → ((m : Text) → s.returned ≡ some m → FromFailed s m)
        × ((srv : Server) (e : Text)
            → thread srv s ≡ ended (failed e)
            → (s.returned ≢ none) ⊎ ((t : Running) × Step addr s t × (t.returned ≢ none)))
        × (((srv : Server) (e : Text) → thread srv s ≢ ended (failed e)) → s.returned ≡ none)
        × ((srv : Server) (x : Served) → thread srv s ≡ got x → length s.err_ch < 3)
  run_lem s r =
      let i = Reach-Inv s r in
      (
        λ m e. i.from m (rw e (inl refl)),
        λ srv e at. ready s (message addr srv e) (i.there srv e at),
        λ none_failed. not_returned s i none_failed s.returned refl,
        λ srv x at. got-room addr s srv x r at,
      )
