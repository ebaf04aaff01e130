-- ===== src/Panel/Deletion.antt =====
-- A virtual host's end, from its HTTP request in routes.go to nginx on the machine of the agent.
use gratis.Agent.Dispatch.{result_of}
use gratis.Agent.Webserver.Paths.{delete_vhost-outside}
use gratis.Agent.Dispatch.Results.{success-result_of}
use gratis.Agent.Dispatch.Vhosts.{dispatch-delete_vhost}
use gratis.Api.Routes.Laws.{handle_delete_vhost-sends, handle_delete_vhost-deleted_iff}
use gratis.Api.Mux.Deletion.{serve_http-deletion, deletion}
use gratis.Proto.{CommandResult, Payload}
use gratis.Panel.{answer_of, send_to}
use gratis.Api.Routes.{command_response, status, Response}
use gratis.Agent.Dispatch.{dispatch, Dispatcher}
use gratis.Api.Server.{State}
use gratis.Host.{remove, Call, ok, Trace, Env, Result}
use gratis.Api.Store.{Postgres}
use gratis.Text.{rooted, Free, bytes, Str}
use gratis.Api.Mux.{serve_http}
use gratis.Base.{◌∙◌, sym, ap, ◌++◌, true, List, ◌↔◌, ◌≡◌, ◌≢◌, Option, ℕ, Bool, ◌∷◌, []}
use gratis.Agent.Webserver

module _ {Float : Type 0} (pg : Postgres) (sha256 : Str → Str) (admin_key : Str) (store : Bool)
    (raw : Result Str) (now : ℕ) (format_time : Option ℕ → Str) (s : State Float) (db : pg.Db)
    (wide : Str → Str) (d : Dispatcher) (env : Env) (t : Trace) (id key server_id domain : Str)
    (n : server_id ≢ []) where
  -- The answer to the request, where SendCommand reaches an agent that answers in time.
  abbrev answer : Response Float × pg.Db
  answer =
      serve_http pg sha256 admin_key store raw now format_time s (send_to wide d env t id)
        (deletion server_id domain key) db

  command_answered :
      ((r : CommandResult) × (send_to wide d env t id server_id
            (Payload.delete_vhost (record { domain = domain }))
          ≡ ok r)
        × (r.success ≡ true))
      ↔ ((Webserver.delete_vhost env domain t).0 ≡ ok tt)
  unfolding send_to answer_of
  command_answered =
      let r = result_of wide id (Webserver.delete_vhost env domain t).0 in
      let sent : send_to wide d env t id server_id
            (Payload.delete_vhost (record { domain = domain }))
          ≡ ok r =
        ap (λ x. answer_of x.0) (dispatch-delete_vhost wide d env id domain t) in
      let (_, succeeds) = success-result_of wide d env id (Webserver.delete_vhost env domain t).0 in
      (
        λ (q, same, worked). succeeds.0 (let p : q ≡ r = cc (same, sent) in cc (p, worked)),
        λ h. (r, sent, succeeds.1 h),
      )

  -- A request to delete a virtual host, with any key or none, sent to an agent that answers in time,
  -- is answered by 204 exactly when DeleteVhost of nginx.go succeeds on the machine of that agent for
  -- the domain in the path.
  pub serve_http-deletes :
      domain ≢ [] → (status answer.0 ≡ 204) ↔ ((Webserver.delete_vhost env domain t).0 ≡ ok tt)
  serve_http-deletes m =
      let same =
        serve_http-deletion pg sha256 admin_key store raw now format_time s
          (send_to wide d env t id) server_id domain key db n m in
      let (forth, back) =
        handle_delete_vhost-deleted_iff Float (send_to wide d env t id) server_id domain in
      (
        λ h. command_answered.0 (forth (ap (λ x. status x.0) (sym same) ∙ h)),
        λ h. ap (λ x. status x.0) same ∙ back (command_answered.1 h),
      )

  -- Where the domain in the path is "../x" without a slash in x: there is one payload that the request,
  -- with any key or none, hands to SendCommand for the server in the path, whatever SendCommand gives
  -- back, and its result decides the answer; and an agent that dispatches this payload asks its host to
  -- remove a link, and then /etc/nginx/x.conf, before anything else.
  pub serve_http-removes_conf :
      (x : Str)
      → domain ≡ 46 ∷ 46 ∷ 47 ∷ x
      → Free 47 x
      → (p : Payload) × ((send : Str → Payload → Result CommandResult)
          → serve_http pg sha256 admin_key store raw now format_time s send
              (deletion server_id domain key)
              db
            ≡ (command_response 204 (send server_id p), db))
        × ((later : List Call) × (link : Str) × ((dispatch wide d env
                (record { command_id = id; payload = p })
                t).1
              ≡ later
                ++ remove (rooted (bytes "etc" ∷ bytes "nginx" ∷ (x ++ bytes ".conf") ∷ []))
                  ∷ remove link
                  ∷ t))
  serve_http-removes_conf x e free =
      let m : domain ≢ [] = λ q. cc (q, e) in
      let (later, link, removed) = delete_vhost-outside env x t free in
      (
        Payload.delete_vhost (record { domain = domain }),
        λ send.
            serve_http-deletion pg sha256 admin_key store raw now format_time s send server_id
              domain key db n m
            ∙ ap (λ r. (r, db)) (handle_delete_vhost-sends Float send server_id domain),
        (
          later,
          link,
          ap (λ x. x.1) (dispatch-delete_vhost wide d env id domain t)
              ∙ ap (λ y. (Webserver.delete_vhost env y t).1) e
              ∙ removed,
        ),
      )
