-- ===== src/Api/Store.antt =====
-- api/internal/store/store.go: provisioning tokens and servers in PostgreSQL. The database is a
-- parameter, an operation for each statement; so are SHA-256 and the random bytes.
pub mod Requests
pub mod ForeignKey
use gratis.Host.{wrapf, errorf, err, ok, Error, Result}
use gratis.Text.{str_eq, bytes, Str}
use gratis.Base.{none, some, ◌%◌, [], ◌+◌, ◌++◌, ◌/◌, ltb, Option, ◌∷◌, if◌then◌else◌, ℕ}

-- A row of provisioning_tokens as ValidateToken scans it.
pub record TokenRow : Type 0 where
  pub id : Str
  pub used_at : Option ℕ
  pub server_id : Option Str

-- The statements of store.go, on the state of the database.
pub record Postgres : Type 1 where
  pub Db : Type 0
  -- INSERT INTO provisioning_tokens (token_hash, created_at)
  pub insert_token : Str → ℕ → Db → Option Error × Db
  -- SELECT id, used_at, server_id … WHERE token_hash = $1
  pub find_token : Str → Db → Result TokenRow
  -- UPDATE provisioning_tokens SET used_at = $1, server_id = $2 WHERE id = $3
  pub bind_token : ℕ → Str → Str → Db → Option Error × Db
  -- INSERT INTO servers … ON CONFLICT (id) DO UPDATE
  pub upsert_server : Str → Str → Db → Option Error × Db

hex_digit : ℕ → ℕ
hex_digit d = if ltb d 10 then 48 + d else 87 + d

-- hex.EncodeToString
pub hex : Str → Str
unfolding hex_digit
hex [] = []
hex (b ∷ s) = hex_digit (b / 16) ∷ hex_digit (b % 16) ∷ hex s

pub hash_token : (Str → Str) → Str → Str
unfolding hex
hash_token sha256 plaintext = hex (sha256 plaintext)

-- From the eight random bytes.
pub generate_id : Str → Str
unfolding hex
generate_id raw = bytes "srv_" ++ hex raw

module _ (pg : Postgres) (sha256 : Str → Str) where
  open pg use {Db, insert_token, find_token, bind_token, upsert_server}

  -- `raw` is what rand.Read gives. The token comes back beside an error of the database.
  pub create_token : Result Str → ℕ → Db → (Str × Option Error) × Db
  unfolding hash_token
  create_token (err e) now db = (([], some e), db)
  create_token (ok raw) now db =
      let (failure, db') = insert_token (hash_token sha256 (hex raw)) now db in
      ((hex raw, failure), db')

  -- The part of ValidateToken behind the query.
  pub check_row : Str → ℕ → Result TokenRow → Db → (Str × Option Error) × Db
  unfolding generate_id
  check_row raw now (err e) db = (([], some (errorf "invalid token" [])), db)
  check_row raw now (ok row) db = elim row.server_id [
    | some id ↦ ((id, none), db)
    | none ↦ elim row.used_at [
      | some used ↦ (([], some (errorf "token already used" [])), db)
      | none ↦
          let (failure, db') = bind_token now (generate_id raw) row.id db in
          ((generate_id raw, failure), db')
    ]
  ]

  pub validate_token : Str → Str → ℕ → Db → (Str × Option Error) × Db
  unfolding check_row hash_token
  validate_token plaintext raw now db =
      check_row raw now (find_token (hash_token sha256 plaintext) db) db

  -- The part of authenticate of api/internal/grpc/server.go behind ValidateToken. A server that
  -- cannot be recorded is logged, and accepted.
  pub record_server : Str → (Str × Option Error) × Db → Result Str × Db
  record_server hostname ((id, none), db) = (ok id, (upsert_server id hostname db).1)
  record_server hostname ((id, some e), db) = (err (wrapf "authentication failed: %w" [] e []), db)

  -- authenticate, with a store; `raw` and `now` are what a first registration draws.
  pub authenticate : Str → Str → Str → ℕ → Db → Result Str × Db
  unfolding validate_token record_server
  authenticate token hostname raw now db =
      if str_eq token []
      then (err (errorf "missing token" []), db)
      else record_server hostname (validate_token token raw now db)

-- authenticate without a store: any token will do.
unfoldable pub authenticate_dev : Str → Str → Result Str
authenticate_dev token hostname =
    if str_eq token [] then err (errorf "missing token" []) else ok (bytes "server-" ++ hostname)
