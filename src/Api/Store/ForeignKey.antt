-- ===== src/Api/Store/ForeignKey.antt =====
-- The foreign key of store.go's migration: provisioning_tokens.server_id references servers(id), and
-- ValidateToken writes it before anything inserts the server.
pub mod Tests
use gratis.Api.Store.Requests.{serve, Request, creates, registers}
use gratis.Base.{
  ◌∷◌, [], ap, inl, ◌∙◌, inr, Bool-cases, Option-cases, none, refl, true, some, false, Option, ℕ,
  ◌≡◌, Bool, List,
}
use gratis.Text.{str_eq, Str}
use gratis.Api.Store.{
  generate_id, hex, hash_token, TokenRow, validate_token, check_row, authenticate, record_server,
  create_token, Postgres,
}
use gratis.Host.{errorf, ok, wrapf, err, Error, Result}

-- What PostgreSQL documents of these statements under that key; `server id db` says that `servers`
-- has a row with this id.
pub record Keyed (pg : Postgres) : Type 0 where
  pub server : Str → pg.Db → Bool
  -- an UPDATE that would break the key fails and changes nothing
  pub bind_fails :
      (now : ℕ) (id row : Str) (db : pg.Db)
      → server id db ≡ false
      → (e : Error) × (pg.bind_token now id row db ≡ (some e, db))
  -- a stored reference has its server
  pub find_references :
      (hash : Str) (db : pg.Db) (row : TokenRow) (id : Str)
      → pg.find_token hash db ≡ ok row
      → row.server_id ≡ some id
      → server id db ≡ true
  -- inserting a token adds no server
  pub insert_adds_none :
      (hash : Str) (now : ℕ) (id : Str) (db : pg.Db)
      → server id (pg.insert_token hash now db).1 ≡ server id db

module _ (pg : Postgres) (keyed : Keyed pg) (sha256 : Str → Str) where
  open keyed use {server, bind_fails, find_references, insert_adds_none}

  abbrev pub NoServers : pg.Db → Type 0
  NoServers db = (id : Str) → server id db ≡ false

  -- The registration fails and changes nothing.
  abbrev pub Fails : Result Str × pg.Db → pg.Db → Type 0
  Fails r db = (e : Error) × (r ≡ (err e, db))

  record_server-Fails :
      (hostname : Str) (db : pg.Db) (r : (Str × Option Error) × pg.Db) (e : Error)
      → r.1 ≡ db
      → r.0.1 ≡ some e
      → Fails (record_server pg sha256 hostname r) db
  unfolding record_server
  record_server-Fails hostname db ((id, none), db') e same failed = cc
  record_server-Fails hostname db ((id, some e'), db') e same failed =
      (wrapf "authentication failed: %w" [] e' [], cc same)

  -- The registration of a row, by what it holds.
  RowFails : Str → ℕ → Result TokenRow → pg.Db → Type 0
  RowFails raw now r db =
      (e : Error) × ((check_row pg sha256 raw now r db).1 ≡ db)
      × ((check_row pg sha256 raw now r db).0.1 ≡ some e)

  row-RowFails :
      (hash raw : Str) (now : ℕ) (db : pg.Db) (row : TokenRow)
      → NoServers db
      → pg.find_token hash db ≡ ok row
      → RowFails raw now (ok row) db
  unfolding RowFails check_row
  row-RowFails hash raw now db row h p = elim (Option-cases row.server_id) [
    | inr (id, bound) ↦ cc (h id, find_references hash db row id p bound)
    | inl free ↦ elim (Option-cases row.used_at) [
      | inr (used, q) ↦ rw (free, q) (errorf "token already used" [], refl, refl)
      | inl unused ↦
          let (e, failed) = bind_fails now (generate_id raw) row.id db (h (generate_id raw)) in
          rw (free, unused)
            (
              e,
              ap (λ (x : Option Error × pg.Db). x.1) failed,
              ap (λ (x : Option Error × pg.Db). x.0) failed,
            )
    ]
  ]

  check_row-RowFails :
      (hash raw : Str) (now : ℕ) (db : pg.Db) (r : Result TokenRow)
      → NoServers db
      → pg.find_token hash db ≡ r
      → RowFails raw now r db
  unfolding RowFails check_row
  check_row-RowFails hash raw now db (ok row) h p = row-RowFails hash raw now db row h p
  check_row-RowFails hash raw now db (err e) h p = (errorf "invalid token" [], refl, refl)

  -- While there is no server, no registration succeeds, and there is none after it.
  pub authenticate-Fails :
      (token hostname raw : Str) (now : ℕ) (db : pg.Db)
      → NoServers db
      → Fails (authenticate pg sha256 token hostname raw now db) db
  unfolding authenticate validate_token RowFails
  authenticate-Fails token hostname raw now db h = elim (Bool-cases (str_eq token [])) [
    | inl e ↦ rw e (errorf "missing token" [], refl)
    | inr e ↦ rw e (
        let (f, same, failed) =
          check_row-RowFails (hash_token sha256 token) raw now db
            (pg.find_token (hash_token sha256 token) db) h refl in
        record_server-Fails hostname db _ f same failed)
  ]

  NoServers-create_token :
      (raw : Result Str) (now : ℕ) (db : pg.Db)
      → NoServers db
      → NoServers (create_token pg sha256 raw now db).1
  unfolding create_token
  NoServers-create_token (ok raw) now db h id =
      insert_adds_none (hash_token sha256 (hex raw)) now id db ∙ h id
  NoServers-create_token (err e) now db h id = h id

  NoServers-serve :
      (rs : List Request) (db : pg.Db) → NoServers db → NoServers (serve pg sha256 rs db)
  unfolding serve
  NoServers-serve [] db h = h
  NoServers-serve (creates raw now ∷ rest) db h =
      NoServers-serve rest _ (NoServers-create_token raw now db h)
  NoServers-serve (registers token hostname raw now ∷ rest) db h =
      let (e, p) = authenticate-Fails token hostname raw now db h in NoServers-serve rest _ (rw p h)

  -- Where the database keeps the foreign key (`Keyed`): from a database with no servers, after any
  -- sequence of requests for tokens and registrations, every registration fails and changes nothing.
  pub serve-rejects_all :
      (rs : List Request) (db : pg.Db) (token hostname raw : Str) (now : ℕ)
      → NoServers db
      → Fails
          (authenticate pg sha256 token hostname raw now (serve pg sha256 rs db))
          (serve pg sha256 rs db)
  serve-rejects_all rs db token hostname raw now h =
      authenticate-Fails token hostname raw now (serve pg sha256 rs db) (NoServers-serve rs db h)
