-- ===== src/Panel/Tests.antt =====
-- A request, an agent and its machine, where every call succeeds.
use gratis.Panel.Creation.{serve_http-creates}
use gratis.Api.Mux.Creation.{creation}
use gratis.Panel.Deletion.{serve_http-removes_conf, serve_http-deletes}
use gratis.Api.Mux.Deletion.{deletion}
use gratis.Api.Mux.{serve_http}
use gratis.Api.Store.{Postgres}
use gratis.Proto.{Payload, CommandResult}
use gratis.Panel.{send_to}
use gratis.Base.{arith, ◌++◌, List, ◌∷◌, [], true, refl, ◌↔◌, ◌≡◌, none, false}
use gratis.Text.{rooted, Str, bytes}
use gratis.Host.{Result, remove, Call, no_rows, err, ok, Env}
use gratis.Agent.Dispatch.{dispatch, Dispatcher}
use gratis.Api.Routes.{vhost_command, status, VhostBody}
use gratis.Agent.Webserver
use gratis.Api.Routes
use gratis.Api.Server.Steps.{initial}

abbrev quiet : Env
quiet t c = record { text = []; number = 0; failure = none }

abbrev agent : Dispatcher
agent = record { db = false; dns = none; email = false }

abbrev body : VhostBody
body = record {
  username = bytes "bob";
  domain = bytes "a.org";
  docroot = bytes "/srv/a";
  php_version = [];
  aliases = [];
}

abbrev N : Type 0
N = Unit {0}

abbrev wide : Str → Str
wide s = s

abbrev no_tables : Postgres
no_tables = record {
  Db = Unit {0};
  insert_token = λ hash now db. (none, db);
  find_token = λ hash db. err no_rows;
  bind_token = λ now id row db. (none, db);
  upsert_server = λ id hostname db. (none, db);
}

-- A deletion without a key.
serve_http-deletes_example :
    (status
        (serve_http no_tables wide
          (bytes "key")
          true
          (ok [])
          0
          (λ o. [])
          (initial {Float = N})
          (send_to wide agent quiet [] (bytes "c1"))
          (deletion (bytes "srv_1") (bytes "a.org") [])
          tt).0
      ≡ 204)
    ↔ ((Webserver.delete_vhost quiet (bytes "a.org") []).0 ≡ ok tt)
unfolding bytes
serve_http-deletes_example =
    serve_http-deletes no_tables wide (bytes "key") true (ok []) 0 (λ o. []) initial tt wide agent
      quiet [] (bytes "c1") [] (bytes "srv_1") (bytes "a.org") (λ e. cc e) (λ e. cc e)

serve_http-creates_example :
    ((status
          (serve_http no_tables wide
            (bytes "key")
            true
            (ok [])
            0
            (λ o. [])
            (initial {Float = N})
            (send_to wide agent quiet [] (bytes "c1"))
            (creation (bytes "srv_1") body [])
            tt).0
        ≡ 201)
      ↔ ((Webserver.create_vhost quiet
            (record {
              domain = bytes "a.org";
              aliases = [];
              docroot = bytes "/srv/a";
              php_version = [];
            })
            []).0
          ≡ ok tt))
    × ((serve_http no_tables wide
          (bytes "key")
          true
          (ok [])
          0
          (λ o. [])
          (initial {Float = N})
          (send_to wide agent quiet [] (bytes "c1"))
          (creation (bytes "srv_1") body [])
          tt).1
        ≡ tt)
unfolding bytes
serve_http-creates_example =
    serve_http-creates no_tables wide (bytes "key") true (ok []) 0 (λ o. []) initial tt wide agent
      quiet [] (bytes "c1") [] (bytes "srv_1") body (λ e. cc e) (λ e. cc e)

serve_http-removes_conf_example :
    (p : Payload) × ((send : Str → Payload → Result CommandResult)
      → serve_http no_tables wide
          (bytes "key")
          true
          (ok [])
          0
          (λ o. [])
          (initial {Float = N})
          send
          (deletion (bytes "srv_1") (bytes "../nginx") [])
          tt
        ≡ (Routes.command_response 204 (send (bytes "srv_1") p), tt))
    × ((later : List Call) × (link : Str) × ((dispatch wide agent quiet
            (record { command_id = bytes "c1"; payload = p })
            []).1
          ≡ later
            ++ remove (rooted (bytes "etc" ∷ bytes "nginx" ∷ (bytes "nginx" ++ bytes ".conf") ∷ []))
              ∷ remove link
              ∷ []))
unfolding bytes
serve_http-removes_conf_example =
    serve_http-removes_conf no_tables wide (bytes "key") true (ok []) 0 (λ o. []) initial tt wide
      agent quiet [] (bytes "c1") [] (bytes "srv_1") (bytes "../nginx") (λ e. cc e) (bytes "nginx")
      refl (omega arith)
