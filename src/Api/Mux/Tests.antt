-- ===== src/Api/Mux/Tests.antt =====
-- Requests to the mux, with a database that stores nothing.
use gratis.Api.Routes.{Response}
use gratis.Api.Server.Steps.{initial}
use gratis.Host.{no_rows, ok, Result, err}
use gratis.Api.Mux.Keys.{serve_http-keyless, serve_http-silent}
use gratis.Proto.{CommandResult, Payload}
use gratis.Api.Store.{Postgres}
use gratis.Api.Mux.Deletion.{deletion}
use gratis.Text.{bytes, Str}
use gratis.Api.Mux.{Request, serve_http}
use gratis.Base.{inr, ap, arith, inl, true, ℕ, none, Option, ◌≡◌, ◌∷◌, []}

abbrev no_tables : Postgres
no_tables = record {
  Db = Unit {0};
  insert_token = λ hash now db. (none, db);
  find_token = λ hash db. err no_rows;
  bind_token = λ now id row db. (none, db);
  upsert_server = λ id hostname db. (none, db);
}

abbrev no_time : Option ℕ → Str
no_time o = []

abbrev obeys : Str → Payload → Result CommandResult
obeys server_id p = ok (record { command_id = bytes "c1"; success = true; error = [] })

abbrev refuses : Str → Payload → Result CommandResult
refuses server_id p = err no_rows

-- GET /api/v1/servers
abbrev listing : Request
listing = record {
  method = bytes "GET";
  segments = bytes "api" ∷ bytes "v1" ∷ bytes "servers" ∷ [];
  key = [];
  body = none;
}

abbrev ask : (Str → Payload → Result CommandResult) → Request → Response (Unit {0}) × Unit {0}
ask send r = serve_http no_tables (λ s. s) (bytes "key") true (ok []) 0 no_time initial send r tt

abbrev first : Str → ℕ
first [] = 0
first (b ∷ s) = b

-- DELETE of a virtual host without a key is done as with one.
serve_http-keyless_example :
    (ask obeys (record (deletion (bytes "srv_1") (bytes "a.org") []) { key = bytes "key" })
      ≡ ask obeys (deletion (bytes "srv_1") (bytes "a.org") []))
    × ((ask obeys (deletion (bytes "srv_1") (bytes "a.org") [])).1 ≡ tt)
unfolding bytes
serve_http-keyless_example =
    serve_http-keyless no_tables (λ s. s) (bytes "key") true (ok []) 0 no_time initial obeys
      (deletion (bytes "srv_1") (bytes "a.org") []) tt (bytes "key")
      (λ (m, p). omega (arith, ap first m))

serve_http-silent_example : ask obeys listing ≡ ask refuses listing
unfolding bytes
serve_http-silent_example =
    serve_http-silent no_tables (λ s. s) (bytes "key") true (ok []) 0 no_time initial obeys refuses
      listing tt
      (λ (vs, o). elim o [
        | inl (m, p) ↦ omega (arith, ap first m)
        | inr (m, p) ↦ omega (arith, ap first m)
      ])
