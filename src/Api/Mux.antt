-- ===== src/Api/Mux.antt =====
-- `routes` of api/internal/grpc/routes.go, with what net/http does by its patterns. A request's path
-- is cleaned, and stands as its segments, each decoded: a segment may hold a slash that was sent as
-- %2F, and only the last one may be empty. A path that is not clean is redirected before.
pub mod Patterns
pub mod Keys
pub mod Tests
pub mod Creation
pub mod Deletion
use gratis.Proto.{CommandResult, Payload}
use gratis.Api.Server.{State}
use gratis.Host.{Result}
use gratis.Api.Store.{Postgres}
use gratis.Text.{str_eq, str_keys, Str, bytes}
use gratis.Api.Routes.{
  handle_delete_vhost, handle_create_vhost, handle_get_server, handle_list_servers,
  handle_create_token, handle_healthz, VhostBody, http_error, Response,
}
use gratis.Base.{
  ◌&&◌, ℕ, true, ◌||◌, none, false, some, Option, Bool, lookup, List, String, ◌∷◌, [],
  if◌then◌else◌,
}

-- A segment of a pattern.
pub data Part : Type 0 where
  literal : Str → Part
  -- {name}: one segment that is not empty
  wildcard : Str → Part

pub data Route : Type 0 where
  healthz create_token list_servers get_server create_vhost delete_vhost : Route

pub record Pattern : Type 0 where
  pub method : Str
  pub parts : List Part
  pub route : Route

abbrev lit : String → Part
lit s = literal (bytes s)

abbrev under_servers : List Part → List Part
under_servers parts = lit "api" ∷ lit "v1" ∷ lit "servers" ∷ parts

abbrev server_id : Part
server_id = wildcard (bytes "server_id")

-- The patterns that are registered.
pub patterns : List Pattern
patterns =
    record { method = bytes "GET"; parts = lit "healthz" ∷ []; route = healthz }
    ∷ record {
      method = bytes "POST";
      parts = lit "api" ∷ lit "v1" ∷ lit "admin" ∷ lit "tokens" ∷ [];
      route = create_token;
    }
    ∷ record { method = bytes "GET"; parts = under_servers []; route = list_servers }
    ∷ record { method = bytes "GET"; parts = under_servers (server_id ∷ []); route = get_server }
    ∷ record {
      method = bytes "POST";
      parts = under_servers (server_id ∷ lit "vhosts" ∷ []);
      route = create_vhost;
    }
    ∷ record {
      method = bytes "DELETE";
      parts = under_servers (server_id ∷ lit "vhosts" ∷ wildcard (bytes "domain") ∷ []);
      route = delete_vhost;
    }
    ∷ []

-- The values of the wildcards, by their names.
abbrev pub Values : Type 0
Values = List (Str × Str)

abbrev with_value : Str → Str → Option Values → Option Values
with_value x s none = none
with_value x s (some vs) = some ((x, s) ∷ vs)

-- Whether the segments match, and with which values.
pub match_parts : List Part → List Str → Option Values
match_parts [] [] = some []
match_parts [] (s ∷ segments) = none
match_parts (p ∷ parts) [] = none
match_parts (literal l ∷ parts) (s ∷ segments) =
    let later = match_parts parts segments in if str_eq l s then later else none
match_parts (wildcard x ∷ parts) (s ∷ segments) =
    let later = match_parts parts segments in if str_eq s [] then none else with_value x s later

-- A pattern for GET also takes HEAD.
pub takes_method : Str → Str → Bool
takes_method pattern method =
    str_eq pattern method || (str_eq pattern (bytes "GET") && str_eq method (bytes "HEAD"))

-- The pattern that a request is handled by.
pub find_route : Str → List Str → List Pattern → Option (Route × Values)
find_route method segments [] = none
find_route method segments (p ∷ ps) =
    let later = find_route method segments ps in
    elim (match_parts p.parts segments) [
      | none ↦ later
      | some vs ↦ if takes_method p.method method then some (p.route, vs) else later
    ]

-- Whether some pattern matches but for its method.
pub matches_path : List Str → List Pattern → Bool
matches_path segments [] = false
matches_path segments (p ∷ ps) =
    let later = matches_path segments ps in
    elim (match_parts p.parts segments) [ none ↦ later | some vs ↦ true ]

-- r.PathValue
pub path_value : Str → Values → Str
path_value name vs = elim (lookup str_keys name vs) [ none ↦ [] | some s ↦ s ]

-- What a request has; `none` is a body that does not decode.
pub record Request : Type 0 where
  pub method : Str
  pub segments : List Str
  -- the X-Admin-Key header
  pub key : Str
  pub body : Option VhostBody

module _ {Float : Type 0} where
  -- The answer of the mux where no pattern takes the request.
  pub unmatched : List Str → Response Float
  unmatched segments =
      if matches_path segments patterns
      then http_error (bytes "Method Not Allowed") 405
      else http_error (bytes "404 page not found") 404

  module _ (pg : Postgres) (sha256 : Str → Str) (admin_key : Str) (store : Bool) (raw : Result Str)
      (now : ℕ) (format_time : Option ℕ → Str) (s : State Float) where
    -- The handler of a route.
    pub respond :
        (Str → Payload → Result CommandResult)
        → Request
        → pg.Db
        → Route
        → Values
        → Response Float × pg.Db
    unfolding path_value
    respond send r db healthz vs = (handle_healthz, db)
    respond send r db create_token vs =
        handle_create_token pg sha256 admin_key r.key store raw now db
    respond send r db list_servers vs = (handle_list_servers s, db)
    respond send r db get_server vs =
        (handle_get_server format_time (path_value (bytes "server_id") vs) s, db)
    respond send r db create_vhost vs =
        (handle_create_vhost send (path_value (bytes "server_id") vs) r.body, db)
    respond send r db delete_vhost vs = (
      handle_delete_vhost send (path_value (bytes "server_id") vs) (path_value (bytes "domain") vs),
      db,
    )

    -- One request, by a database and the SendCommand that a handler may call.
    pub serve_http :
        (Str → Payload → Result CommandResult) → Request → pg.Db → Response Float × pg.Db
    unfolding respond
    serve_http send r db = elim (find_route r.method r.segments patterns) [
      | none ↦ (unmatched r.segments, db)
      | some (route, vs) ↦ respond send r db route vs
    ]
