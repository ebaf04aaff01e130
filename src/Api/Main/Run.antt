-- ===== src/Api/Main/Run.antt =====
-- Run of api/internal/grpc/server.go, as a function of what its select takes in turn, and
-- api/cmd/api/main.go from its begin to its exit. The two servers, the listener and the shutdown are
-- not under the repository; what they give stands in the events.
use gratis.Api.Store.{Postgres}
use gratis.Text.{Str}
use gratis.Host.{wrapf, err, ok, Result, Error}
use gratis.Api.Main.{start_api, Server, Pool, Flags}
use gratis.Base.{
  ◌∙◌, sym, ap, inr, inl, Option-cases, Bool-cases, ◌↔◌, refl, arith, All, true, ℕ, none, some,
  ◌++◌, ◌≡◌, List, Option, Bool, ◌∷◌, [], if◌then◌else◌,
}

pub data Event : Type 0 where
  -- ctx.Done(), and whether GracefulStop and Shutdown come back, which wait for the calls in work
  interrupted : Bool → Event
  -- what Serve of the gRPC server returns
  grpc_returns : Option Error → Event
  -- the error of ListenAndServe, which never returns without one
  http_returns : Error → Event

abbrev pub result_of : Option Error → Result (Unit {0})
result_of none = ok tt
result_of (some e) = err e

-- `is_closed` says that an error is http.ErrServerClosed.
module _ (is_closed : Error → Bool) where
  -- The select of Run; `none` is a server that goes on, or waits for its calls.
  pub serve : List Event → Option (Result (Unit {0}))
  serve [] = none
  serve (interrupted comes_back ∷ events) = if comes_back then some (ok tt) else none
  serve (grpc_returns o ∷ events) = some (result_of o)
  serve (http_returns e ∷ events) =
      let later = serve events in if is_closed e then later else some (err e)

  -- Run, by the failure of net.Listen.
  pub run_server : Str → Option Error → List Event → Option (Result (Unit {0}))
  unfolding serve
  run_server grpc_addr (some e) events = some (err (wrapf "listen %s: %w" (grpc_addr ∷ []) e []))
  run_server grpc_addr none events = serve events

  abbrev pub status_of : Option (Result (Unit {0})) → Option ℕ
  status_of none = none
  status_of (some (ok u)) = some 0
  status_of (some (err e)) = some 1

  module _ (pg : Postgres) (pool : Pool pg) where
    started : Option Error → List Event → Option (Server pg) → Option ℕ
    started listening events none = some 1
    started listening events (some srv) = status_of (run_server srv.grpc_addr listening events)

    -- The exit status of the program; `none` is a program that goes on.
    pub exit_status : (Str → Str) → Flags → Option Error → List Event → Option ℕ
    unfolding started
    exit_status getenv f listening events = started listening events (start_api pg pool getenv f)

  -- Events that Run does not react to.
  abbrev pub Passes : Event → Type 0
  Passes (http_returns e) = is_closed e ≡ true
  Passes _ = ⊥

  -- An interruption from which the shutdown comes back, or an end of the gRPC server without an
  -- error.
  abbrev pub Finishes : Event → Type 0
  Finishes (interrupted comes_back) = comes_back ≡ true
  Finishes (grpc_returns o) = o ≡ none
  Finishes (http_returns e) = ⊥

  abbrev pub Finished : List Event → Type 0
  Finished events =
      (before : List Event) × (e : Event) × (after : List Event) × (events ≡ before ++ e ∷ after)
      × All Passes before
      × Finishes e

  serve-Finished : (events : List Event) → serve events ≡ some (ok tt) → Finished events
  unfolding serve
  serve-Finished [] h = cc h
  serve-Finished (interrupted comes_back ∷ events) h =
      ([], interrupted comes_back, events, refl, tt, ground arith)
  serve-Finished (grpc_returns none ∷ events) h = ([], grpc_returns none, events, refl, tt, refl)
  serve-Finished (grpc_returns (some e) ∷ events) h = cc h
  serve-Finished (http_returns e ∷ events) h = elim (Bool-cases (is_closed e)) [
    | inl p ↦
        let (before, x, after, q, all, fin) = serve-Finished events (ground (arith, p)) in
        (http_returns e ∷ before, x, after, ap (λ l. http_returns e ∷ l) q, (p, all), fin)
    | inr p ↦ absurd (ground (arith, p))
  ]

  serve_finished :
      (before after : List Event) (e : Event)
      → All Passes before
      → Finishes e
      → serve (before ++ e ∷ after) ≡ some (ok tt)
  unfolding serve
  serve_finished [] after (interrupted comes_back) h f = rw (serve, f) refl
  serve_finished [] after (grpc_returns o) h f = rw f refl
  serve_finished [] after (http_returns e) h f = elim f [ ]
  serve_finished (http_returns x ∷ before) after e (p, h) f =
      rw (serve, p) (serve_finished before after e h f)
  serve_finished (interrupted c ∷ before) after e (p, h) f = elim p [ ]
  serve_finished (grpc_returns o ∷ before) after e (p, h) f = elim p [ ]

  status_of-zero : (o : Option (Result (Unit {0}))) → status_of o ≡ some 0 → o ≡ some (ok tt)
  status_of-zero none h = cc h
  status_of-zero (some (ok u)) h = refl
  status_of-zero (some (err e)) h = absurd (ground arith)

  run_server-zero_iff :
      (grpc_addr : Str) (listening : Option Error) (events : List Event)
      → (status_of (run_server grpc_addr listening events) ≡ some 0)
        ↔ ((listening ≡ none) × Finished events)
  unfolding run_server
  run_server-zero_iff grpc_addr (some e) events = (λ h. absurd (ground arith), λ (p, _). cc p)
  run_server-zero_iff grpc_addr none events = (
    λ h. (refl, serve-Finished events (status_of-zero (serve events) h)),
    λ (p, (before, e, after, q, all, fin)).
        ap status_of (ap serve q ∙ serve_finished before after e all fin),
  )

  module _ (pg : Postgres) (pool : Pool pg) where
    -- The API exits with 0 exactly where it was started, could listen for the agents, and was then
    -- interrupted with a shutdown that came back, or its gRPC server ended without an error, before
    -- any error of the HTTP server but http.ErrServerClosed.
    pub exit_status-zero_iff :
        (getenv : Str → Str) (f : Flags) (listening : Option Error) (events : List Event)
        → (exit_status pg pool getenv f listening events ≡ some 0) ↔ (
            ((srv : Server pg) × (start_api pg pool getenv f ≡ some srv))
            × (listening ≡ none)
            × Finished events)
    unfolding exit_status started run_server
    exit_status-zero_iff getenv f listening events =
        elim (Option-cases (start_api pg pool getenv f)) [
          | inl e ↦ (λ h. absurd (ground (arith, e)), λ ((srv, p), _, _). cc (e, p))
          | inr (srv, e) ↦
              let same : exit_status pg pool getenv f listening events
                  ≡ status_of (run_server srv.grpc_addr listening events) =
                rw (exit_status, e) refl in
              let (forth, back) = run_server-zero_iff srv.grpc_addr listening events in
              (
                λ h. let (p, fin) = forth (sym same ∙ h) in ((srv, e), p, fin),
                λ (_, p, fin). same ∙ back (p, fin),
              )
        ]
