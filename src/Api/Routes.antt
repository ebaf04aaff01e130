-- ===== src/Api/Routes.antt =====
-- api/internal/grpc/routes.go: the HTTP handlers. A handler gives its response as a value; JSON
-- bodies are kept as the values that are encoded. Decoding a body and formatting a time are
-- parameters, and so is SendCommand where a handler waits for it.
pub mod Laws
pub mod Online
pub mod Tests
use gratis.Host.{ok, message, err, Error, Result}
use gratis.Text.{str_eq, str_keys, Str, bytes}
use gratis.Api.Server.{ConnectedAgent, State}
use gratis.Proto.{delete_vhost, CommandResult, SystemMetrics, create_vhost, Payload}
use gratis.Base.{
  not, ◌||◌, none, true, nat_keys, lookup, some, false, if◌then◌else◌, Bool, ◌++◌, Option, List, ℕ,
  ◌∷◌, [],
}
use gratis.Api.Store

-- One server, and the answer of handleGetServer.
pub record ServerInfo : Type 0 where
  pub server_id : Str
  pub hostname : Str

pub record ServerStatus (Float : Type 0) : Type 0 where
  pub server_id : Str
  pub hostname : Str
  pub online : Bool
  pub last_seen : Str
  pub metrics : Option (SystemMetrics Float)

pub data Response (Float : Type 0) : Type 0 where
  -- a status with a text; http.Error ends it with a newline
  plain : ℕ → Str → Response Float
  -- 200 with a JSON body
  token : Str → Response Float
  servers : List ServerInfo → Response Float
  server : ServerStatus Float → Response Float

-- The body of a request for a virtual host.
pub record VhostBody : Type 0 where
  pub username : Str
  pub domain : Str
  pub docroot : Str
  pub php_version : Str
  pub aliases : List Str

abbrev pub vhost_command : VhostBody → Payload
vhost_command body = create_vhost (record {
  username = body.username;
  domain = body.domain;
  docroot = body.docroot;
  php_version = body.php_version;
  ssl = false;
  aliases = body.aliases;
})

module _ {Float : Type 0} where
  abbrev pub status : Response Float → ℕ
  status (plain code s) = code
  status (token s) = 200
  status (servers l) = 200
  status (server i) = 200

  -- http.Error
  pub http_error : Str → ℕ → Response Float
  http_error s code = plain code (s ++ bytes "\n")

  pub handle_healthz : Response Float
  handle_healthz = plain 200 (bytes "ok")

  abbrev pub token_response : (Str × Option Error) → Response Float
  token_response (plaintext, none) = token plaintext
  token_response (plaintext, some e) = http_error (message e) 500

  -- `given` is the X-Admin-Key header; `store` says that there is a store.
  pub handle_create_token :
      (pg : Store.Postgres) (sha256 : Str → Str) (admin_key given : Str) (store : Bool)
      → Result Str
      → ℕ
      → pg.Db
      → Response Float × pg.Db
  unfolding http_error
  handle_create_token pg sha256 admin_key given store raw now db =
      if str_eq admin_key [] || not (str_eq given admin_key)
      then (http_error (bytes "unauthorized") 401, db)
      else if not store
      then (http_error (bytes "store not configured") 503, db)
      else let (r, db') = Store.create_token pg sha256 raw now db in (token_response r, db')

  -- The loop of handleListServers over the map; a session that is gone is not in the map.
  pub list_agents : List (Str × ℕ) → List (ℕ × ConnectedAgent Float) → List ServerInfo
  list_agents [] sessions = []
  list_agents ((id, conn) ∷ agents) sessions =
      let rest = list_agents agents sessions in
      elim (lookup nat_keys conn sessions) [
        | none ↦ rest
        | some a ↦ record { server_id = a.server_id; hostname = a.hostname } ∷ rest
      ]

  pub handle_list_servers : State Float → Response Float
  unfolding list_agents
  handle_list_servers s = servers (list_agents s.agents s.sessions)

  -- `format_time` is the RFC 3339 form; a server that was never heard of has the zero time.
  pub server_response : (Option ℕ → Str) → Option (ConnectedAgent Float) → Response Float
  unfolding http_error
  server_response format_time none = http_error (bytes "server not found") 404
  server_response format_time (some a) = server (record {
    server_id = a.server_id;
    hostname = a.hostname;
    online = true;
    last_seen = format_time a.last_seen;
    metrics = a.last_metrics;
  })

  -- The session of a server by the map.
  pub find_agent : Str → State Float → Option (ConnectedAgent Float)
  find_agent server_id s = elim (lookup str_keys server_id s.agents) [
    | none ↦ none
    | some conn ↦ lookup nat_keys conn s.sessions
  ]

  pub handle_get_server : (Option ℕ → Str) → Str → State Float → Response Float
  unfolding server_response find_agent
  handle_get_server format_time server_id s = server_response format_time (find_agent server_id s)

  -- The end of both handlers for virtual hosts.
  pub command_response : ℕ → Result CommandResult → Response Float
  unfolding http_error
  command_response code (err e) = http_error (message e) 502
  command_response code (ok r) = if not r.success then http_error r.error 422 else plain code []

  module _ (send : Str → Payload → Result CommandResult) where
    -- `none` is a body that does not decode.
    unfoldable pub handle_create_vhost : Str → Option VhostBody → Response Float
    unfolding command_response
    handle_create_vhost server_id none = http_error (bytes "invalid request body") 400
    handle_create_vhost server_id (some body) =
        if str_eq body.domain []
        then http_error (bytes "domain is required") 400
        else command_response 201 (send server_id (vhost_command body))

    pub handle_delete_vhost : Str → Str → Response Float
    unfolding command_response
    handle_delete_vhost server_id domain =
        command_response 204 (send server_id (delete_vhost (record { domain = domain })))
