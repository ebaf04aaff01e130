-- ===== src/Api/Routes/Laws.antt =====
-- When the handlers of routes.go succeed.
use gratis.Host.{err, ok, Result}
use gratis.Proto.{delete_vhost, CommandResult, Payload}
use gratis.Api.Store.{create_token, Postgres}
use gratis.Base.{
  inr, not, ◌||◌, inl, refl, Bool-cases, arith, none, some, true, ◌↔◌, Option, ℕ, ◌≡◌, Bool, [],
  ◌≢◌,
}
use gratis.Api.Routes.{
  handle_delete_vhost, vhost_command, VhostBody, status, command_response, http_error,
  handle_create_token, handle_create_vhost,
}
use gratis.Text.{str_eq, str_eq_iff, Str}

-- An admin key is configured, and the request has it.
abbrev pub IsAdmin : Str → Str → Type 0
IsAdmin admin_key given = (admin_key ≢ []) × (given ≡ admin_key)

module _ (Float : Type 0) where
  -- A token is given out exactly where an admin key is configured, the request carries it, there is
  -- a store, and the random bytes and the insertion succeed.
  pub handle_create_token-ok_iff :
      (pg : Postgres) (sha256 : Str → Str) (admin_key given : Str) (store : Bool) (raw : Result Str)
      (now : ℕ) (db : pg.Db)
      → (status (handle_create_token {Float = Float} pg sha256 admin_key given store raw now db).0
          ≡ 200)
        ↔ (IsAdmin admin_key given
            × (store ≡ true)
            × ((create_token pg sha256 raw now db).0.1 ≡ none))
  unfolding handle_create_token http_error
  handle_create_token-ok_iff pg sha256 admin_key given store raw now db = (
    λ h. ground (arith, str_eq_iff admin_key [], str_eq_iff given admin_key),
    λ h. ground (arith, str_eq_iff admin_key [], str_eq_iff given admin_key),
  )

  -- A request without the key leaves the database as it is.
  pub handle_create_token-keeps :
      (pg : Postgres) (sha256 : Str → Str) (admin_key given : Str) (store : Bool) (raw : Result Str)
      (now : ℕ) (db : pg.Db)
      → ¬ (IsAdmin admin_key given)
      → (handle_create_token {Float = Float} pg sha256 admin_key given store raw now db).1 ≡ db
  unfolding handle_create_token
  handle_create_token-keeps pg sha256 admin_key given store raw now db h =
      elim (Bool-cases (str_eq admin_key [] || not (str_eq given admin_key))) [
        | inl e ↦ rw e
        | inr e ↦ absurd (
            h (
              λ p. ground (arith, str_eq_iff admin_key []),
              ground (arith, str_eq_iff given admin_key),
            ))
      ]

  answered_iff :
      (code : ℕ) (x : Result CommandResult)
      → code ≢ 422
      → code ≢ 502
      → (status (command_response {Float = Float} code x) ≡ code)
        ↔ ((r : CommandResult) × (x ≡ ok r) × (r.success ≡ true))
  unfolding command_response http_error
  answered_iff code (ok r) n m = (λ h. (r, refl, ground arith), λ (q, e, t). ground arith)
  answered_iff code (err e) n m = (λ h. absurd (ground arith), λ (q, e', t). cc)

  -- A virtual host is reported as created exactly when the body decodes, names a domain, and the
  -- agent answers the command for it with a success.
  pub handle_create_vhost-created_iff :
      (send : Str → Payload → Result CommandResult) (server_id : Str) (body : Option VhostBody)
      → (status (handle_create_vhost {Float = Float} send server_id body) ≡ 201) ↔ (
          (b : VhostBody) × (body ≡ some b)
          × (b.domain ≢ [])
          × ((r : CommandResult) × (send server_id (vhost_command b) ≡ ok r) × (r.success ≡ true)))
  unfolding handle_create_vhost http_error
  handle_create_vhost-created_iff send server_id none =
      (λ h. absurd (ground arith), λ (b, e, n, r). cc)
  handle_create_vhost-created_iff send server_id (some body) =
      elim (Bool-cases (str_eq body.domain [])) [
        | inl e ↦ (
          λ h. absurd (ground (arith, e)),
          λ (b, same, n, r). absurd (ground (arith, n, str_eq_iff body.domain [])),
        )
        | inr e ↦ (
          λ h. (
            body,
            refl,
            λ q. ground (arith, str_eq_iff body.domain []),
            (answered_iff 201 (send server_id (vhost_command body)) (λ e. omega (arith, e))
                  (λ e. omega (arith, e))).0
                (ground (arith, e)),
          ),
          λ (b, same, n, answer). ground (
            arith,
            e,
            (answered_iff 201 (send server_id (vhost_command b)) (λ e. omega (arith, e))
                  (λ e. omega (arith, e))).1
                answer,
          ),
        )
      ]

  -- The command of a deletion, and what its answer makes of the response.
  pub handle_delete_vhost-sends :
      (send : Str → Payload → Result CommandResult) (server_id domain : Str)
      → handle_delete_vhost {Float = Float} send server_id domain
        ≡ command_response 204 (send server_id (delete_vhost (record { domain = domain })))
  unfolding handle_delete_vhost
  handle_delete_vhost-sends send server_id domain = refl

  -- A virtual host is reported as deleted exactly when the agent answers with a success.
  pub handle_delete_vhost-deleted_iff :
      (send : Str → Payload → Result CommandResult) (server_id domain : Str)
      → (status (handle_delete_vhost {Float = Float} send server_id domain) ≡ 204) ↔ (
          (r : CommandResult) × (send server_id (delete_vhost (record { domain = domain })) ≡ ok r)
          × (r.success ≡ true))
  unfolding handle_delete_vhost
  handle_delete_vhost-deleted_iff send server_id domain =
      answered_iff 204 (send server_id (delete_vhost (record { domain = domain })))
        (λ e. omega (arith, e)) (λ e. omega (arith, e))
