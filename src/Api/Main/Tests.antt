-- ===== src/Api/Main/Tests.antt =====
-- An API without a database, which is interrupted.
use gratis.Text.{bytes, Str}
use gratis.Api.Store.{Postgres}
use gratis.Api.Main.{start_api, Server, Pool, Flags}
use gratis.Host.{no_rows, err, ok, Error}
use gratis.Api.Main.Run.{exit_status-zero_iff, Finished, interrupted, exit_status}
use gratis.Base.{Option, ◌↔◌, some, ◌≡◌, true, false, Bool, none, ◌∷◌, []}

abbrev blank : Postgres
blank = record {
  Db = Unit {0};
  insert_token = λ hash now db. (none, tt);
  find_token = λ hash db. err no_rows;
  bind_token = λ now id row db. (none, tt);
  upsert_server = λ id hostname db. (none, tt);
}

abbrev pool : Pool blank
pool = record { open_pool = λ dsn. ok tt; ping = λ db. none; create_tables = λ db. (none, db) }

abbrev nothing_set : Str → Str
nothing_set v = []

abbrev flags : Flags
flags = record { grpc = bytes ":9090"; http = bytes ":8080"; db = []; admin_key = bytes "k" }

abbrev never_closed : Error → Bool
never_closed e = false

exit_status-zero_iff_example :
    (exit_status never_closed blank pool nothing_set flags none (interrupted true ∷ []) ≡ some 0)
    ↔ (((srv : Server blank) × (start_api blank pool nothing_set flags ≡ some srv))
        × (Path (Option Error) none none)
        × Finished never_closed (interrupted true ∷ []))
exit_status-zero_iff_example =
    exit_status-zero_iff never_closed blank pool nothing_set flags none (interrupted true ∷ [])
