-- ===== src/Api/Routes/Tests.antt =====
-- Requests to routes.go, with a database that stores nothing.
use gratis.Api.Routes.Online.{Reach-list_servers, ids, Once}
use gratis.Api.Server.Steps.{connects, here, next, initial, Reach}
use gratis.Api.Server.{start_command, register_agent, ConnectedAgent, State}
use mathlib.Core.List.{Memᴰ}
use gratis.Api.Routes.Laws.{handle_create_token-ok_iff, IsAdmin}
use gratis.Host.{no_rows, err, ok}
use gratis.Api.Store.{create_token, Postgres}
use gratis.Text.{bytes, Str}
use gratis.Api.Routes.{
  servers, handle_list_servers, ServerInfo, handle_get_server, handle_create_token, status,
}
use gratis.Base.{refl, ℕ, List, lookup, Option, ◌↔◌, ◌≡◌, none, true, ◌∷◌, []}

abbrev no_tables : Postgres
no_tables = record {
  Db = Unit {0};
  insert_token = λ hash now db. (none, db);
  find_token = λ hash db. err no_rows;
  bind_token = λ now id row db. (none, db);
  upsert_server = λ id hostname db. (none, db);
}

abbrev key : Str
key = bytes "key"

handle_create_token-ok_iff_example :
    (status
        (handle_create_token {Float = Unit {0}} no_tables
          (λ s. s)
          key
          key
          true
          (ok (1 ∷ []))
          0
          tt).0
      ≡ 200)
    ↔ (IsAdmin key key
        × (true ≡ true)
        × ((create_token no_tables (λ s. s) (ok (1 ∷ [])) 0 tt).0.1 ≡ none))
handle_create_token-ok_iff_example =
    handle_create_token-ok_iff (Unit {0}) no_tables (λ s. s) key key true (ok (1 ∷ [])) 0 tt

-- One server is connected.
abbrev agent : ConnectedAgent (Unit {0})
agent = record {
  server_id = bytes "srv_1";
  hostname = bytes "host";
  last_metrics = none;
  last_seen = none;
}

abbrev connected : State (Unit {0})
connected = register_agent 7 agent initial

connected-Reach : Reach initial connected
unfolding lookup
connected-Reach = next here (connects 7 agent refl refl)

abbrev no_time : Option ℕ → Str
no_time o = []

Reach-list_servers_example :
    (l : List ServerInfo) × (handle_list_servers connected ≡ servers l)
    × Once (ids l)
    × ((id : Str) → Memᴰ id (ids l) ↔ (status (handle_get_server no_time id connected) ≡ 200))
    × ((server_id id : Str) (ch : ℕ)
        → (status (handle_get_server no_time server_id connected) ≡ 200) ↔ (
            (conn : ℕ) × (u : State (Unit {0})) × (start_command server_id id ch connected
              ≡ ok (conn, u))))
Reach-list_servers_example = Reach-list_servers no_time connected-Reach
