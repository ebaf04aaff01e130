-- ===== src/Agent/Dispatch/Vhosts.antt =====
-- The answer of dispatch.go to a command for a virtual host.
use gratis.Agent.Dispatch.Results.{success-result_of}
use gratis.Agent.Webserver
use gratis.Base.{refl, ◌↔◌, true, some, ◌≡◌}
use gratis.Host.{ok, Trace, Env}
use gratis.Text.{Str}
use gratis.Agent.Webserver.{VhostConfig}
use gratis.Agent.Dispatch.{result_of, Dispatcher, handle_create_vhost, handle, dispatch}
use gratis.Proto.{Payload, CommandResult, CreateVhostCmd}

-- What handleCreateVhost hands to nginx.go.
abbrev pub vhost_config : CreateVhostCmd → VhostConfig
vhost_config cmd = record {
  domain = cmd.domain;
  aliases = cmd.aliases;
  docroot = cmd.docroot;
  php_version = cmd.php_version;
}

-- The command is answered, as a success exactly when CreateVhost returns no error.
pub dispatch-create_vhost :
    (wide : Str → Str) (d : Dispatcher) (env : Env) (id : Str) (cmd : CreateVhostCmd) (t : Trace)
    → (r : CommandResult) × ((dispatch wide d env
          (record { command_id = id; payload = Payload.create_vhost cmd })
          t).0
        ≡ some r)
      × ((r.success ≡ true) ↔ ((Webserver.create_vhost env (vhost_config cmd) t).0 ≡ ok tt))
unfolding dispatch handle handle_create_vhost
dispatch-create_vhost wide d env id cmd t = (
  result_of wide id (Webserver.create_vhost env (vhost_config cmd) t).0,
  refl,
  (success-result_of wide d env id (Webserver.create_vhost env (vhost_config cmd) t).0).1,
)

-- A command to delete one is answered by what DeleteVhost gives.
pub dispatch-delete_vhost :
    (wide : Str → Str) (d : Dispatcher) (env : Env) (id domain : Str) (t : Trace)
    → dispatch wide d env
        (record { command_id = id; payload = Payload.delete_vhost (record { domain = domain }) })
        t
      ≡ (
        some (result_of wide id (Webserver.delete_vhost env domain t).0),
        (Webserver.delete_vhost env domain t).1,
      )
unfolding dispatch handle
dispatch-delete_vhost wide d env id domain t = refl
