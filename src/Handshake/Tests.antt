-- ===== src/Handshake/Tests.antt =====
-- Handshakes, and starts of the API.
use gratis.Api.Server.{ConnectedAgent}
use gratis.Handshake.{connect-greet, carried, start_agent-accepted_in_dev}
use gratis.Settings.{flag_or_env}
use gratis.Agent.Session.{connect, register_request}
use gratis.Api.Main.{
  start_api-store, new_store, authenticate_by, choose_store, start_api, Pool, NoDsn,
}
use gratis.Proto.{AgentMessage, register, RegisterRequest, RegisterResponse}
use gratis.Host.{◌>>=◌, no_rows, external, err, Result, ok, Env}
use gratis.Api.Connect.{greet-accepts, greet-authenticated, greet, new_agent}
use gratis.Agent.Main.{dns_client, email_manager, database_manager, settings, start_agent}
use gratis.Api.Store.{Postgres}
use gratis.Base.{false, ◌↔◌, refl, ◌++◌, ap, some, if◌then◌else◌, true, ◌≡◌, none, ◌∷◌, []}
use gratis.Api.Main as Api
use gratis.Agent.Main as Agent
use gratis.Agent.Database
use gratis.Text.{str_eq, bytes, Str}

-- A database that holds nothing and takes everything.
abbrev blank : Postgres
blank = record {
  Db = Unit {0};
  insert_token = λ hash now db. (none, tt);
  find_token = λ hash db. err no_rows;
  bind_token = λ now id row db. (none, tt);
  upsert_server = λ id hostname db. (none, tt);
}

-- PostgreSQL is there under one name.
abbrev pool : Pool blank
pool = record {
  open_pool = λ dsn. ok tt;
  ping = λ db. some (external (bytes "refused"));
  create_tables = λ db. (none, db);
}

abbrev nothing_set : Str → Str
nothing_set v = []

abbrev bare_flags : Api.Flags
bare_flags = record { grpc = bytes ":9090"; http = bytes ":8080"; db = []; admin_key = bytes "k" }

abbrev dev_server : Api.Server blank
dev_server = record {
  grpc_addr = bytes ":9090";
  http_addr = bytes ":8080";
  admin_key = bytes "k";
  store = none;
}

start_api-dev : start_api blank pool nothing_set bare_flags ≡ some dev_server
unfolding start_api choose_store flag_or_env str_eq bytes
start_api-dev = refl

-- A machine without MariaDB.
abbrev down : Env
down t c = record { text = []; number = 0; failure = some (external (bytes "refused")) }

abbrev agent_flags : Agent.Flags
agent_flags = record {
  api = bytes "localhost:9090";
  token = bytes "t";
  db_socket = bytes "/run/db";
  pdns_url = [];
  pdns_key = [];
}

abbrev agent : Agent.Agent
agent = record {
  api_addr = bytes "localhost:9090";
  token = bytes "t";
  dispatcher = record { db = false; dns = none; email = false };
}

start_agent-down : (start_agent down nothing_set agent_flags []).0 ≡ ok (some agent)
unfolding start_agent settings flag_or_env database_manager email_manager dns_client str_eq bytes
    Database.new_manager ◌>>=◌
start_agent-down = refl

start_agent-accepted_in_dev_example :
    (greet {Float = Unit {0}}
      (authenticate_by blank (λ s. s) [] 0)
      none
      (ok (register (register_request (bytes "t") (bytes "host") (bytes "amd64"))))
      none).0.outcome
    ≡ ok (new_agent (bytes "server-" ++ bytes "host") (bytes "host"))
start_agent-accepted_in_dev_example =
    start_agent-accepted_in_dev blank pool (λ s. s) nothing_set bare_flags dev_server (refl, refl)
      start_api-dev down nothing_set agent_flags [] agent start_agent-down (bytes "host")
      (bytes "amd64") [] 0

abbrev request : RegisterRequest
request = register_request (bytes "t") (bytes "host") (bytes "amd64")

-- A store without state that knows one token.
abbrev by_token : RegisterRequest → Unit {0} → Result Str × Unit {0}
by_token r s = (if str_eq r.token (bytes "t") then ok (bytes "srv_1") else err no_rows, s)

connect-greet_example :
    (reply : RegisterResponse) × ((greet {Float = Unit {0}} by_token none
        (ok (register request))
        tt).0.replies
      ≡ reply ∷ [])
    × ((connect (bytes "api") (carried reply) ≡ ok tt) ↔ (
        (a : ConnectedAgent (Unit {0})) × ((greet by_token none
            (ok (register request))
            tt).0.outcome
          ≡ ok a)
        × (a.server_id ≡ reply.server_id)
        × (a.hostname ≡ bytes "host")))
connect-greet_example =
    connect-greet by_token (bytes "api") (bytes "t") (bytes "host") (bytes "amd64") tt

greeted :
    (greet {Float = Unit {0}} by_token none (ok (register request)) tt).0.outcome
    ≡ ok (new_agent (bytes "srv_1") (bytes "host"))
unfolding register_request str_eq bytes
greeted = ap (λ x. x.outcome) (greet-accepts by_token request tt (bytes "srv_1") refl)

abbrev first : Result (AgentMessage (Unit {0}))
first = ok (register request)

greet-authenticated_example :
    (r : RegisterRequest) × (first ≡ ok (register r))
    × ((by_token r tt).0 ≡ ok (bytes "srv_1"))
    × (bytes "host" ≡ r.hostname)
    × ((greet {Float = Unit {0}} by_token none (ok (register request)) tt).0.replies
        ≡ record { accepted = true; server_id = bytes "srv_1"; message = [] } ∷ [])
unfolding new_agent
greet-authenticated_example =
    greet-authenticated by_token none first tt (new_agent (bytes "srv_1") (bytes "host")) greeted
