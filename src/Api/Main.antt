-- ===== src/Api/Main.antt =====
-- api/cmd/api/main.go: the settings of the API and its store, with New of
-- api/internal/store/store.go. The flags are parsed by Go, and what they, the environment and the
-- pool of connections give are parameters. Signals, the log and the closing of the pool at the end
-- are not modelled.
pub mod Run
pub mod Tests
use gratis.Settings.{flag_or_env-nil, flag_or_env}
use gratis.Proto.{RegisterRequest}
use gratis.Base.{◌⊎◌, refl, inr, inl, Bool-cases, ◌≡◌, [], some, none, if◌then◌else◌, ℕ, Option}
use gratis.Host.{Result-cases, ok, wrapf, Error, err, Result}
use gratis.Api.Store.{authenticate, authenticate_dev, Postgres}
use gratis.Text.{str_eq_iff, str_eq, bytes, Str}

-- The flags, each with its default where it was not given.
pub record Flags : Type 0 where
  pub grpc : Str
  pub http : Str
  pub db : Str
  pub admin_key : Str

-- pgxpool.New, Ping of the pool, and the statements of migrate.
pub record Pool (pg : Postgres) : Type 0 where
  pub open_pool : Str → Result pg.Db
  pub ping : pg.Db → Option Error
  pub create_tables : pg.Db → Option Error × pg.Db

-- grpc.Server, as NewServer makes it; its maps are empty at first. A store that is nil is `none`.
pub record Server (pg : Postgres) : Type 0 where
  pub grpc_addr : Str
  pub http_addr : Str
  pub admin_key : Str
  pub store : Option pg.Db

module _ (pg : Postgres) (pool : Pool pg) where
  migrated : Option Error × pg.Db → Result pg.Db
  migrated (some e, db) = err (wrapf "migrate: %w" [] e [])
  migrated (none, db) = ok db

  -- store.New
  pub new_store : Str → Result pg.Db
  new_store dsn = elim (pool.open_pool dsn) [
    | err e ↦ err (wrapf "open postgres: %w" [] e [])
    | ok db ↦ elim (pool.ping db) [
      | some e ↦ err (wrapf "ping postgres: %w" [] e [])
      | none ↦ migrated (pool.create_tables db)
    ]
  ]

  -- `st` of main; `none` is the exit for a store that cannot be opened.
  unfoldable pub choose_store : Str → Option (Option pg.Db)
  choose_store dsn =
      if str_eq dsn []
      then some none
      else elim (new_store dsn) [ err e ↦ none | ok db ↦ some (some db) ]

  -- NewServer, by the settings.
  abbrev pub new_server : (Str → Str) → Flags → Option pg.Db → Server pg
  new_server getenv f st = record {
    grpc_addr = f.grpc;
    http_addr = f.http;
    admin_key = flag_or_env f.admin_key (getenv (bytes "GRATIS_ADMIN_KEY"));
    store = st;
  }

  -- main, up to the start of the server.
  unfoldable pub start_api : (Str → Str) → Flags → Option (Server pg)
  start_api getenv f = elim (choose_store (flag_or_env f.db (getenv (bytes "GRATIS_DB_URL")))) [
    | none ↦ none
    | some st ↦ some (new_server getenv f st)
  ]

module _ (pg : Postgres) (sha256 : Str → Str) where
  -- authenticate of the server, by its store; `raw` and `now` are what a first registration draws.
  unfoldable pub authenticate_by :
      Str → ℕ → RegisterRequest → Option pg.Db → Result Str × Option pg.Db
  authenticate_by raw now r none = (authenticate_dev r.token r.hostname, none)
  authenticate_by raw now r (some db) =
      let (result, db') = authenticate pg sha256 r.token r.hostname raw now db in (result, some db')

-- No DSN, neither by the flag nor by the environment.
abbrev pub NoDsn : (Str → Str) → Flags → Type 0
NoDsn getenv f = (f.db ≡ []) × (getenv (bytes "GRATIS_DB_URL") ≡ [])

module _ (pg : Postgres) (pool : Pool pg) where
  choose_store-none : (dsn : Str) → dsn ≡ [] → choose_store pg pool dsn ≡ some none
  unfolding choose_store
  choose_store-none dsn e = rw ((str_eq_iff dsn []).1 e) refl

  choose_store-dsn :
      (dsn : Str)
      → ¬ (dsn ≡ [])
      → choose_store pg pool dsn
        ≡ elim (new_store pg pool dsn) [ err e ↦ none | ok db ↦ some (some db) ]
  unfolding choose_store
  choose_store-dsn dsn given = elim (Bool-cases (str_eq dsn [])) [
    | inl e ↦ absurd (given ((str_eq_iff dsn []).0 e))
    | inr e ↦ rw e refl
  ]

  -- main starts the API in its dev mode, without a store, exactly where neither the flag nor
  -- GRATIS_DB_URL names a database. With a name it starts with the store that New opened; where New
  -- fails it starts no server at all.
  pub start_api-store :
      (getenv : Str → Str) (f : Flags)
      → let dsn = flag_or_env f.db (getenv (bytes "GRATIS_DB_URL")) in
        (NoDsn getenv f
          × ((srv : Server pg) × (start_api pg pool getenv f ≡ some srv) × (srv.store ≡ none)))
        ⊎ (¬ NoDsn getenv f
            × (((e : Error) × (new_store pg pool dsn ≡ err e) × (start_api pg pool getenv f ≡ none))
                ⊎ ((db : pg.Db) × (srv : Server pg) × (new_store pg pool dsn ≡ ok db)
                    × (start_api pg pool getenv f ≡ some srv)
                    × (srv.store ≡ some db))))
  unfolding start_api
  start_api-store getenv f =
      let dsn = flag_or_env f.db (getenv (bytes "GRATIS_DB_URL")) in
      let (nil, given) = flag_or_env-nil f.db (getenv (bytes "GRATIS_DB_URL")) in
      elim (Bool-cases (str_eq dsn [])) [
        | inl e ↦
            let gone = (str_eq_iff dsn []).0 e in
            inl (
              nil gone,
              (
                new_server pg pool getenv f none,
                rw (start_api, choose_store-none dsn gone) refl,
                refl,
              ),
            )
        | inr e ↦
            let some_dsn : ¬ (dsn ≡ []) = λ gone. cc (e, (str_eq_iff dsn []).1 gone) in
            inr (
              λ h. some_dsn (given h),
              elim (Result-cases (new_store pg pool dsn)) [
                | inl (x, p) ↦ inl (x, p, rw (start_api, choose_store-dsn dsn some_dsn, p) refl)
                | inr (db, p) ↦ inr (
                  db,
                  new_server pg pool getenv f (some db),
                  p,
                  rw (start_api, choose_store-dsn dsn some_dsn, p) refl,
                  refl,
                )
              ],
            )
      ]
