-- ===== src/Api/Mux/Keys.antt =====
-- Which requests to routes.go need the admin key, and which send commands.
use gratis.Api.Routes.{Response}
use gratis.Proto.{CommandResult, Payload}
use gratis.Api.Server.{State}
use gratis.Host.{Result}
use gratis.Api.Mux.Patterns.{route_method, find_route_sound, route_parts, fill}
use gratis.Text.{str_eq_iff, bytes, Str, str_eq}
use gratis.Api.Store.{Postgres}
use gratis.Api.Mux.{
  get_server, list_servers, healthz, patterns, create_token, find_route, Route, respond,
  delete_vhost, create_vhost, Values, takes_method, Request, serve_http,
}
use gratis.Base.{
  subst, ap, sym, Bool-cases, ◌∙◌, refl, inr, inl, ◌≢◌, Option-cases, ◌⊎◌, Option, ℕ, true, Bool,
  ◌≡◌, ◌∷◌, [],
}

-- POST /api/v1/admin/tokens
abbrev pub IsTokenRequest : Request → Type 0
IsTokenRequest r =
    (r.method ≡ bytes "POST")
    × (r.segments ≡ bytes "api" ∷ bytes "v1" ∷ bytes "admin" ∷ bytes "tokens" ∷ [])

-- POST /api/v1/servers/{server_id}/vhosts, DELETE /api/v1/servers/{server_id}/vhosts/{domain}
abbrev pub IsVhostRequest : Request → Type 0
IsVhostRequest r =
    (vs : Values) × (((r.method ≡ bytes "POST") × (r.segments ≡ fill (route_parts create_vhost) vs))
      ⊎ ((r.method ≡ bytes "DELETE") × (r.segments ≡ fill (route_parts delete_vhost) vs)))

takes_post : (m : Str) → takes_method (bytes "POST") m ≡ true → m ≡ bytes "POST"
unfolding takes_method str_eq bytes
takes_post m h = elim (Bool-cases (str_eq (bytes "POST") m)) [
  | inl e ↦ sym ((str_eq_iff (bytes "POST") m).0 e)
  | inr e ↦ absurd (cc (h, e))
]

takes_delete : (m : Str) → takes_method (bytes "DELETE") m ≡ true → m ≡ bytes "DELETE"
unfolding takes_method str_eq bytes
takes_delete m h = elim (Bool-cases (str_eq (bytes "DELETE") m)) [
  | inl e ↦ sym ((str_eq_iff (bytes "DELETE") m).0 e)
  | inr e ↦ absurd (cc (h, e))
]

module _ {Float : Type 0} (pg : Postgres) (sha256 : Str → Str) (admin_key : Str) (store : Bool)
    (raw : Result Str) (now : ℕ) (format_time : Option ℕ → Str) (s : State Float) where
  abbrev serves : (Str → Payload → Result CommandResult) → Request → pg.Db → Response Float × pg.Db
  serves = serve_http pg sha256 admin_key store raw now format_time s

  abbrev responds :
      (Str → Payload → Result CommandResult)
      → Request
      → pg.Db
      → Route
      → Values
      → Response Float × pg.Db
  responds = respond pg sha256 admin_key store raw now format_time s

  module _ (send : Str → Payload → Result CommandResult) (r : Request) (db : pg.Db) where
    -- Only the request for a token reads the key, and it alone changes the database.
    respond-keyless :
        (route : Route) (vs : Values) (k : Str)
        → route ≢ create_token
        → (responds send (record r { key = k }) db route vs ≡ responds send r db route vs)
          × ((responds send r db route vs).1 ≡ db)
    unfolding respond
    respond-keyless healthz vs k n = (refl, refl)
    respond-keyless create_token vs k n = absurd (n refl)
    respond-keyless list_servers vs k n = (refl, refl)
    respond-keyless get_server vs k n = (refl, refl)
    respond-keyless create_vhost vs k n = (refl, refl)
    respond-keyless delete_vhost vs k n = (refl, refl)

    -- A request but POST /api/v1/admin/tokens is answered the same whatever admin key it carries, or
    -- none, and leaves the database as it is.
    pub serve_http-keyless :
        (k : Str)
        → ¬ IsTokenRequest r
        → (serves send (record r { key = k }) db ≡ serves send r db) × ((serves send r db).1 ≡ db)
    unfolding serve_http
    serve_http-keyless k n = elim (Option-cases (find_route r.method r.segments patterns)) [
      | inl e ↦ rw (serve_http, e) (refl, refl)
      | inr ((route, vs), e) ↦
          let (path, method) = find_route_sound r.method r.segments route vs e in
          rw (serve_http, e)
            (respond-keyless route vs k (λ c.
              let path' = path ∙ ap (λ x. fill (route_parts x) vs) c in
              n (
                takes_post r.method
                    (subst (λ x. takes_method (route_method x) r.method ≡ true) c method),
                path',
              )))
    ]

  -- Two ways to send commands make no difference to a request but those for virtual hosts.
  respond-silent :
      (send send' : Str → Payload → Result CommandResult) (r : Request) (db : pg.Db) (route : Route)
      (vs : Values)
      → route ≢ create_vhost
      → route ≢ delete_vhost
      → responds send r db route vs ≡ responds send' r db route vs
  unfolding respond
  respond-silent send send' r db healthz vs n m = refl
  respond-silent send send' r db create_token vs n m = refl
  respond-silent send send' r db list_servers vs n m = refl
  respond-silent send send' r db get_server vs n m = refl
  respond-silent send send' r db create_vhost vs n m = absurd (n refl)
  respond-silent send send' r db delete_vhost vs n m = absurd (m refl)

  -- A request sends a command only by POST to the virtual hosts of a server or by DELETE of one of
  -- them: the answer to any other is the same whatever SendCommand would return.
  pub serve_http-silent :
      (send send' : Str → Payload → Result CommandResult) (r : Request) (db : pg.Db)
      → ¬ IsVhostRequest r
      → serves send r db ≡ serves send' r db
  unfolding serve_http
  serve_http-silent send send' r db n =
      elim (Option-cases (find_route r.method r.segments patterns)) [
        | inl e ↦ rw (serve_http, e) refl
        | inr ((route, vs), e) ↦
            let (path, method) = find_route_sound r.method r.segments route vs e in
            rw (serve_http, e)
              (respond-silent send send' r db route vs
                (λ c.
                  let path' = path ∙ ap (λ x. fill (route_parts x) vs) c in
                  n (
                    vs,
                    inl (
                      takes_post r.method
                          (subst (λ x. takes_method (route_method x) r.method ≡ true) c method),
                      path',
                    ),
                  ))
                (λ c.
                  let path' = path ∙ ap (λ x. fill (route_parts x) vs) c in
                  n (
                    vs,
                    inr (
                      takes_delete r.method
                          (subst (λ x. takes_method (route_method x) r.method ≡ true) c method),
                      path',
                    ),
                  )))
      ]
