-- ===== src/Api/Mux/Creation.antt =====
-- The request that creates a virtual host reaches its handler of routes.go.
use gratis.Proto.{CommandResult, Payload}
use gratis.Api.Server.{State}
use gratis.Host.{Result}
use gratis.Api.Routes.{VhostBody}
use gratis.Text.{str_eq, bytes, Str}
use gratis.Api.Mux.{
  path_value, respond, create_vhost, serve_http, takes_method, Request, match_parts, patterns,
  find_route,
}
use gratis.Api.Store.{Postgres}
use gratis.Api.Routes
use gratis.Base.{lookup, ◌≡◌, ◌≢◌, Option, some, ℕ, Bool, ◌∷◌, [], refl}

-- POST /api/v1/servers/{server_id}/vhosts, with a body that decodes
abbrev pub creation : Str → VhostBody → Str → Request
creation server_id body key = record {
  method = bytes "POST";
  segments = bytes "api" ∷ bytes "v1" ∷ bytes "servers" ∷ server_id ∷ bytes "vhosts" ∷ [];
  key = key;
  body = some body;
}

find_route-creation :
    (server_id : Str)
    → server_id ≢ []
    → find_route
        (bytes "POST")
        (bytes "api" ∷ bytes "v1" ∷ bytes "servers" ∷ server_id ∷ bytes "vhosts" ∷ [])
        patterns
      ≡ some (create_vhost, (bytes "server_id", server_id) ∷ [])
unfolding find_route patterns match_parts takes_method str_eq bytes
find_route-creation [] n = absurd (n refl)
find_route-creation (a ∷ server_id) n = refl

module _ {Float : Type 0} (pg : Postgres) (sha256 : Str → Str) (admin_key : Str) (store : Bool)
    (raw : Result Str) (now : ℕ) (format_time : Option ℕ → Str) (s : State Float) where
  -- With any key, or none.
  pub serve_http-creation :
      (send : Str → Payload → Result CommandResult) (server_id key : Str) (body : VhostBody)
      (db : pg.Db)
      → server_id ≢ []
      → serve_http pg sha256 admin_key store raw now format_time s send
          (creation server_id body key)
          db
        ≡ (Routes.handle_create_vhost send server_id (some body), db)
  unfolding serve_http respond path_value lookup str_eq bytes
  serve_http-creation send server_id key body db n =
      rw (serve_http, find_route-creation server_id n) refl
