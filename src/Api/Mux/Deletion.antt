-- ===== src/Api/Mux/Deletion.antt =====
-- The request that deletes a virtual host reaches its handler of routes.go.
use gratis.Api.Routes.{handle_delete_vhost}
use gratis.Proto.{CommandResult, Payload}
use gratis.Api.Server.{State}
use gratis.Host.{Result}
use gratis.Api.Store.{Postgres}
use gratis.Text.{str_eq, bytes, Str}
use gratis.Api.Mux.{
  delete_vhost, path_value, respond, takes_method, match_parts, Request, patterns, find_route,
  serve_http,
}
use gratis.Base.{refl, lookup, some, ◌≡◌, ◌≢◌, Option, none, ℕ, Bool, ◌∷◌, []}

-- DELETE /api/v1/servers/{server_id}/vhosts/{domain}
abbrev pub deletion : Str → Str → Str → Request
deletion server_id domain key = record {
  method = bytes "DELETE";
  segments = bytes "api" ∷ bytes "v1" ∷ bytes "servers" ∷ server_id ∷ bytes "vhosts" ∷ domain ∷ [];
  key = key;
  body = none;
}

find_route-deletion :
    (server_id domain : Str)
    → server_id ≢ []
    → domain ≢ []
    → find_route
        (bytes "DELETE")
        (bytes "api" ∷ bytes "v1" ∷ bytes "servers" ∷ server_id ∷ bytes "vhosts" ∷ domain ∷ [])
        patterns
      ≡ some (delete_vhost, (bytes "server_id", server_id) ∷ (bytes "domain", domain) ∷ [])
unfolding find_route patterns match_parts takes_method str_eq bytes
find_route-deletion [] domain n m = absurd (n refl)
find_route-deletion (a ∷ server_id) [] n m = absurd (m refl)
find_route-deletion (a ∷ server_id) (b ∷ domain) n m = refl

module _ {Float : Type 0} (pg : Postgres) (sha256 : Str → Str) (admin_key : Str) (store : Bool)
    (raw : Result Str) (now : ℕ) (format_time : Option ℕ → Str) (s : State Float) where
  -- With any key, or none.
  pub serve_http-deletion :
      (send : Str → Payload → Result CommandResult) (server_id domain key : Str) (db : pg.Db)
      → server_id ≢ []
      → domain ≢ []
      → serve_http pg sha256 admin_key store raw now format_time s send
          (deletion server_id domain key)
          db
        ≡ (handle_delete_vhost send server_id domain, db)
  unfolding serve_http respond path_value lookup str_eq bytes
  serve_http-deletion send server_id domain key db n m =
      rw (serve_http, find_route-deletion server_id domain n m) refl
