-- ===== src/Api/Connect.antt =====
-- api/internal/grpc/server.go: Connect up to its session. What Recv and Send of the stream give, and
-- how a request is authenticated, are parameters.
use gratis.Host.{errorf, ok, err, Result, Error}
use gratis.Proto.{register, AgentMessage, RegisterResponse, RegisterRequest}
use gratis.Api.Server.{connect_reply, ConnectedAgent}
use gratis.Base.{sym, ap, refl, true, some, ◌≡◌, none, List, Option, ◌∷◌, []}
use gratis.Text.{Str}

-- The replies that Connect sends, and the session that it goes on to serve, or its error.
pub record Greeting (Float : Type 0) : Type 0 where
  pub replies : List RegisterResponse
  pub outcome : Result (ConnectedAgent Float)

module _ {Float : Type 0} where
  -- connectedAgent, as Connect makes it.
  unfoldable pub new_agent : Str → Str → ConnectedAgent Float
  new_agent server_id hostname = record {
    server_id = server_id;
    hostname = hostname;
    last_metrics = none;
    last_seen = none;
  }

  -- Behind authenticate; `failure` is that of Send.
  answer_request : Option Error → Str → Result Str → Greeting Float
  answer_request failure hostname (err e) = record {
    replies = connect_reply (err e) ∷ [];
    outcome = err e;
  }
  answer_request failure hostname (ok server_id) = record {
    replies = connect_reply (ok server_id) ∷ [];
    outcome = elim failure [ some e ↦ err e | none ↦ ok (new_agent server_id hostname) ];
  }

  -- Connect, by what Recv gives; `S` is the state of the store.
  pub greet :
      {S : Type 0}
      → (RegisterRequest → S → Result Str × S)
      → Option Error
      → Result (AgentMessage Float)
      → S
      → Greeting Float × S
  greet authenticate failure (err e) s = (record { replies = []; outcome = err e }, s)
  greet authenticate failure (ok (register r)) s =
      let (result, s') = authenticate r s in (answer_request failure r.hostname result, s')
  greet authenticate failure (ok m) s = (
    record { replies = []; outcome = err (errorf "expected RegisterRequest as first message" []) },
    s,
  )

  -- By what authenticate gives, where Send succeeds.
  pub greet-accepts :
      {S : Type 0} (authenticate : RegisterRequest → S → Result Str × S) (r : RegisterRequest)
      (s : S) (server_id : Str)
      → (authenticate r s).0 ≡ ok server_id
      → (greet authenticate none (ok (register r)) s).0 ≡ record {
        replies = connect_reply (ok server_id) ∷ [];
        outcome = ok (new_agent server_id r.hostname);
      }
  unfolding greet answer_request
  greet-accepts authenticate r s server_id p = rw p refl

  pub greet-rejects :
      {S : Type 0} (authenticate : RegisterRequest → S → Result Str × S) (r : RegisterRequest)
      (s : S) (e : Error)
      → (authenticate r s).0 ≡ err e
      → (greet authenticate none (ok (register r)) s).0
        ≡ record { replies = connect_reply (err e) ∷ []; outcome = err e }
  unfolding greet answer_request
  greet-rejects authenticate r s e p = rw p refl

  answer_request-ok :
      (failure : Option Error) (hostname : Str) (result : Result Str) (a : ConnectedAgent Float)
      → (answer_request failure hostname result).outcome ≡ ok a
      → (failure ≡ none)
        × (result ≡ ok a.server_id)
        × (a.hostname ≡ hostname)
        × ((answer_request failure hostname result).replies ≡ connect_reply (ok a.server_id) ∷ [])
  unfolding answer_request new_agent
  answer_request-ok none hostname (ok server_id) a h =
      let e : new_agent server_id hostname ≡ a = cc h in
      (
        refl,
        ap (λ x. ok x.server_id) e,
        sym (ap (λ (x : ConnectedAgent Float). x.hostname) e),
        ap (λ x. connect_reply (ok x.server_id) ∷ []) e,
      )
  answer_request-ok (some e) hostname (ok server_id) a h = cc h
  answer_request-ok failure hostname (err e) a h = cc h

  -- Connect goes on to serve a session only behind a RegisterRequest that authenticate accepted, for
  -- the server that authenticate named, under the hostname of the request, and it has sent one reply,
  -- which accepts the agent as this server.
  pub greet-authenticated :
      {S : Type 0} (authenticate : RegisterRequest → S → Result Str × S) (failure : Option Error)
      (first : Result (AgentMessage Float)) (s : S) (a : ConnectedAgent Float)
      → (greet authenticate failure first s).0.outcome ≡ ok a
      → (r : RegisterRequest) × (first ≡ ok (register r))
        × ((authenticate r s).0 ≡ ok a.server_id)
        × (a.hostname ≡ r.hostname)
        × ((greet authenticate failure first s).0.replies
            ≡ record { accepted = true; server_id = a.server_id; message = [] } ∷ [])
  unfolding greet connect_reply
  greet-authenticated authenticate failure (ok (register r)) s a h =
      let (_, named, host, reply) = answer_request-ok failure r.hostname (authenticate r s).0 a h in
      (r, refl, named, host, reply)
  greet-authenticated authenticate failure (err e) s a h = cc h
  greet-authenticated authenticate failure (ok m) s a h = cc h
