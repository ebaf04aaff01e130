-- ===== src/Panel/Creation.antt =====
-- A virtual host's begin, from its HTTP request in routes.go to nginx on the machine of the agent.
use gratis.Api.Mux.Creation.{serve_http-creation, creation}
use gratis.Panel.{handle_create_vhost-reaches_nginx, send_to}
use gratis.Api.Mux.{serve_http}
use gratis.Api.Routes.{status, Response, VhostBody}
use gratis.Agent.Dispatch.{Dispatcher}
use gratis.Api.Server.{State}
use gratis.Host.{ok, Trace, Env, Result}
use gratis.Text.{Str}
use gratis.Api.Store.{Postgres}
use gratis.Agent.Webserver
use gratis.Base.{◌∙◌, sym, ap, ◌↔◌, ◌≡◌, [], ◌≢◌, Option, ℕ, Bool}

module _ {Float : Type 0} (pg : Postgres) (sha256 : Str → Str) (admin_key : Str) (store : Bool)
    (raw : Result Str) (now : ℕ) (format_time : Option ℕ → Str) (s : State Float) (db : pg.Db)
    (wide : Str → Str) (d : Dispatcher) (env : Env) (t : Trace) (id key server_id : Str)
    (body : VhostBody) where
  -- The answer to the request, where SendCommand reaches an agent that answers in time.
  abbrev created : Response Float × pg.Db
  created =
      serve_http pg sha256 admin_key store raw now format_time s (send_to wide d env t id)
        (creation server_id body key) db

  -- A request to create a virtual host, with any key or none, with a server and with a body that decodes
  -- and has a domain, sent to an agent that answers in time: it is answered by 201 exactly when
  -- CreateVhost of nginx.go succeeds on the machine of that agent, whatever that machine answers, for
  -- the domain, the aliases, the document root and the PHP version of the body; and it leaves the
  -- database as it was.
  pub serve_http-creates :
      server_id ≢ []
      → body.domain ≢ []
      → ((status created.0 ≡ 201) ↔ (
          (Webserver.create_vhost env
            (record {
              domain = body.domain;
              aliases = body.aliases;
              docroot = body.docroot;
              php_version = body.php_version;
            })
            t).0
          ≡ ok tt))
        × (created.1 ≡ db)
  serve_http-creates n m =
      let same =
        serve_http-creation pg sha256 admin_key store raw now format_time s
          (send_to wide d env t id) server_id key body db n in
      let (forth, back) =
        handle_create_vhost-reaches_nginx Float wide d env t id server_id body m in
      (
        (λ h. forth (ap (λ x. status x.0) (sym same) ∙ h), λ h. ap (λ x. status x.0) same ∙ back h),
        ap (λ x. x.1) same,
      )
