-- ===== src/Handshake.antt =====
-- The handshake of the two programs: `connect` of agent/internal/rpc/agent.go with Connect of
-- api/internal/grpc/server.go, over a stream that carries every message.
pub mod Tests
use gratis.Agent.Main.Managers.{start_agent-exits_iff}
use gratis.Agent.Main.{start_agent}
use gratis.Api.Store.{Postgres, authenticate_dev}
use gratis.Api.Main.{start_api-store, start_api, NoDsn, Pool, authenticate_by}
use gratis.Api.Server.{ConnectedAgent, connect_reply}
use gratis.Api.Connect.{greet-accepts, greet-rejects, new_agent, greet}
use gratis.Host.{Trace, Env, err, Result-cases, ok, Result}
use gratis.Agent.Session.{connect-ok_iff, check_response, connect, register_request, Wire}
use gratis.Proto.{register, register_response, RegisterRequest, RegisterResponse}
use gratis.Base.{Bool-cases, ◌≢◌, ◌++◌, ℕ, some, refl, inr, ap, inl, ◌↔◌, ◌≡◌, none, ◌∷◌, []}
use gratis.Api.Main as Api
use gratis.Agent.Main as Agent
use gratis.Text.{str_eq_iff, str_eq, bytes, Str}

-- gRPC carries the handshake through, and the API answers with this reply.
abbrev pub carried : RegisterResponse → Wire
carried reply = record {
  dialled = none;
  opened = none;
  registered = none;
  received = ok (register_response reply);
}

module _ {Float S : Type 0} (authenticate : RegisterRequest → S → Result Str × S) where
  -- Over a stream that carries every message, Connect sends one reply to the request of an agent, and
  -- with this reply the agent goes on to its session exactly where Connect goes on to serve one; the
  -- server of that session is the one that the agent is told, and its hostname the agent's.
  pub connect-greet :
      (api_addr token hostname arch : Str) (s : S)
      → let greeting =
          (greet {Float = Float} authenticate none
            (ok (register (register_request token hostname arch)))
            s).0 in
        (reply : RegisterResponse) × (greeting.replies ≡ reply ∷ [])
        × ((connect api_addr (carried reply) ≡ ok tt) ↔ (
            (a : ConnectedAgent Float) × (greeting.outcome ≡ ok a)
            × (a.server_id ≡ reply.server_id)
            × (a.hostname ≡ hostname)))
  unfolding register_request connect_reply new_agent
  connect-greet api_addr token hostname arch s =
      let r = register_request token hostname arch in
      elim (Result-cases (authenticate r s).0) [
        | inl (e, p) ↦
            let g = greet-rejects {Float = Float} authenticate r s e p in
            (
              connect_reply (err e),
              ap (λ x. x.replies) g,
              (
                λ h.
                    let (_, _, _, (reply, q, accepted)) =
                      (connect-ok_iff api_addr (carried (connect_reply (err e)))).0 h in
                    absurd (cc (q, accepted)),
                λ (a, q, _, _). absurd (cc (q, g)),
              ),
            )
        | inr (id, p) ↦
            let g = greet-accepts {Float = Float} authenticate r s id p in
            (
              connect_reply (ok id),
              ap (λ x. x.replies) g,
              (
                λ h. (new_agent id hostname, ap (λ x. x.outcome) g, refl, refl),
                λ q.
                    (connect-ok_iff api_addr (carried (connect_reply (ok id)))).1
                      (refl, refl, refl, (connect_reply (ok id), refl, refl)),
              ),
            )
      ]

-- An API that is started without a database accepts every agent that is started, under a name made of
-- its hostname.
pub start_agent-accepted_in_dev :
    {Float : Type 0} (pg : Postgres) (pool : Pool pg) (sha256 : Str → Str) (api_getenv : Str → Str)
    (f : Api.Flags) (srv : Api.Server pg)
    → NoDsn api_getenv f
    → start_api pg pool api_getenv f ≡ some srv
    → (env : Env) (getenv : Str → Str) (flags : Agent.Flags) (t : Trace) (a : Agent.Agent)
    → (start_agent env getenv flags t).0 ≡ ok (some a)
    → (hostname arch raw : Str) (now : ℕ)
    → (greet {Float = Float}
        (authenticate_by pg sha256 raw now)
        none
        (ok (register (register_request a.token hostname arch)))
        srv.store).0.outcome
      ≡ ok (new_agent (bytes "server-" ++ hostname) hostname)
unfolding authenticate_by authenticate_dev register_request
start_agent-accepted_in_dev {Float} pg pool sha256 api_getenv f srv dev h env getenv flags t a
      started hostname arch raw now =
    let no_store : srv.store ≡ none = elim (start_api-store pg pool api_getenv f) [
      | inl (_, (srv', p, q)) ↦ cc (h, p, q)
      | inr (with_dsn, _) ↦ absurd (with_dsn dev)
    ] in
    let has_token : a.token ≢ [] = elim (start_agent-exits_iff env getenv flags t) [
      | inl (_, p) ↦ absurd (cc (started, p))
      | inr (_, (a', p, token)) ↦ λ gone. token (cc (started, p, gone))
    ] in
    let named : authenticate_dev a.token hostname ≡ ok (bytes "server-" ++ hostname) =
      elim (Bool-cases (str_eq a.token [])) [
        | inl e ↦ absurd (has_token ((str_eq_iff a.token []).0 e))
        | inr e ↦ rw e refl
      ] in
    rw no_store (
      ap (λ x. x.outcome)
        (greet-accepts {Float = Float} (authenticate_by pg sha256 raw now)
          (register_request a.token hostname arch) none (bytes "server-" ++ hostname) named))
