-- ===== src/Panel.antt =====
-- The two programs together: a virtual host from its HTTP request in routes.go to nginx on the
-- machine of the agent.
pub mod Creation
pub mod Deletion
pub mod Tests
use mathlib.Core.Path.{subst}
use gratis.Agent.Dispatch.Vhosts.{dispatch-create_vhost, vhost_config}
use gratis.Api.Routes.Laws.{handle_create_vhost-created_iff}
use gratis.Host.{errorf, err, ok, Trace, Env, Result}
use gratis.Api.Server.{connect_reply}
use gratis.Agent.Dispatch.{dispatch, Dispatcher}
use gratis.Proto.{CommandResult, Payload, register_response, CreateVhostCmd}
use gratis.Text.{bytes, Str}
use gratis.Agent.Session.{check_response}
use gratis.Api.Routes.{vhost_command, status, VhostBody}
use gratis.Base.{◌∙◌, ap, Option, refl, arith, ◌↔◌, true, some, none, ◌≡◌, ◌≢◌, false, ◌∷◌, []}
use gratis.Agent.Webserver
use gratis.Api.Routes

-- What SendCommand returns: a result that came in time, or an error.
unfoldable pub answer_of : Option CommandResult → Result CommandResult
answer_of none = err (errorf "command timed out after %s" (bytes "30s" ∷ []))
answer_of (some r) = ok r

-- SendCommand to an agent that is connected and answers in time: the command gets its id, and the
-- agent's answer comes back; from an agent that panics nothing comes back.
unfoldable pub send_to :
    (Str → Str) → Dispatcher → Env → Trace → Str → Str → Payload → Result CommandResult
unfolding answer_of
send_to wide d env t id server_id p =
    answer_of (dispatch wide d env (record { command_id = id; payload = p }) t).0

-- The command of a request.
abbrev vhost_fields : VhostBody → CreateVhostCmd
vhost_fields body = record {
  username = body.username;
  domain = body.domain;
  docroot = body.docroot;
  php_version = body.php_version;
  ssl = false;
  aliases = body.aliases;
}

-- The agent answers the command of the request with a success.
abbrev Answers : (Str → Str) → Dispatcher → Env → Trace → Str → Str → VhostBody → Type 0
Answers wide d env t id server_id b =
    (r : CommandResult) × (send_to wide d env t id server_id (vhost_command b) ≡ ok r)
    × (r.success ≡ true)

send_to-create_vhost :
    (wide : Str → Str) (d : Dispatcher) (env : Env) (t : Trace) (id server_id : Str)
    (cmd : CreateVhostCmd)
    → ((r : CommandResult) × (send_to wide d env t id server_id (Payload.create_vhost cmd) ≡ ok r)
        × (r.success ≡ true))
      ↔ ((Webserver.create_vhost env (vhost_config cmd) t).0 ≡ ok tt)
unfolding send_to answer_of
send_to-create_vhost wide d env t id server_id cmd =
    let (r, answered, succeeds) = dispatch-create_vhost wide d env id cmd t in
    let sent : answer_of (some r) ≡ ok r = refl in
    let sent' : send_to wide d env t id server_id (Payload.create_vhost cmd) ≡ ok r =
      ap answer_of answered ∙ sent in
    (
      λ (q, same, worked). succeeds.0 (let p : q ≡ r = cc (same, sent') in cc (p, worked)),
      λ h. (r, sent', succeeds.1 h),
    )

-- A request for a virtual host with a domain, sent to an agent that answers in time, is answered by
-- 201 exactly when CreateVhost of nginx.go succeeds on the machine of that agent, for the request's
-- domain, aliases, document root and PHP version.
pub handle_create_vhost-reaches_nginx :
    (Float : Type 0) (wide : Str → Str) (d : Dispatcher) (env : Env) (t : Trace)
    (id server_id : Str) (body : VhostBody)
    → body.domain ≢ []
    → (status (
          Routes.handle_create_vhost {Float = Float}
            (send_to wide d env t id)
            server_id
            (some body))
        ≡ 201)
      ↔ ((Webserver.create_vhost env
            (record {
              domain = body.domain;
              aliases = body.aliases;
              docroot = body.docroot;
              php_version = body.php_version;
            })
            t).0
          ≡ ok tt)
handle_create_vhost-reaches_nginx Float wide d env t id server_id body n =
    let answered =
      handle_create_vhost-created_iff Float (send_to wide d env t id) server_id (some body) in
    (
      λ h.
          let (b, same, m, r) = answered.0 h in
          let same' : b ≡ body = cc same in
          (send_to-create_vhost wide d env t id server_id (vhost_fields body)).0
            (subst (λ x. Answers wide d env t id server_id x) same' r),
      λ h.
          answered.1 (
            body,
            refl,
            n,
            (send_to-create_vhost wide d env t id server_id (vhost_fields body)).1 h,
          ),
    )
