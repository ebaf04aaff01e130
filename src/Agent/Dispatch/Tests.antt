-- ===== src/Agent/Dispatch/Tests.antt =====
-- Commands to an agent of dispatch.go with a DNS client and no other manager, on a host where every
-- call succeeds.
use gratis.Agent.Dispatch.Safety.{dispatch-Permits, Permits}
use gratis.Text.{str_eq, bytes}
use gratis.Agent.Webserver
use gratis.Proto.{restart_service, Command}
use gratis.Agent.Dns.{Client}
use gratis.Host.{◌>>=◌, Call, Env}
use gratis.Agent.Dispatch.{
  is_listed, allowed_services, handle_restart_service, Dispatcher, dispatch,
}
use gratis.Base.{refl, All, some, ◌++◌, none, false, ◌≡◌, List, []}

abbrev quiet : Env
quiet t c = record { text = []; number = 200; failure = none }

abbrev client : Client
client = record { base_url = bytes "http://ns"; api_key = bytes "k" }

abbrev agent : Dispatcher
agent = record { db = false; dns = some client; email = false }

abbrev restart : Command
restart = record {
  command_id = bytes "c1";
  payload = restart_service (record { service = bytes "nginx" });
}

-- A listed service is restarted, and another one is not.
restart_tests :
    (handle_restart_service quiet (record { service = bytes "nginx" }) []
      ≡ Webserver.restart_service quiet (bytes "nginx") [])
    × ((handle_restart_service quiet (record { service = bytes "ssh" }) []).1 ≡ [])
unfolding handle_restart_service allowed_services is_listed str_eq bytes ◌>>=◌
restart_tests = (refl, refl)

dispatch-Permits_example :
    (cs : List Call) × ((dispatch (λ s. s) agent quiet restart []).1 ≡ cs ++ [])
    × All (Permits (λ s. s) agent restart.payload) cs
dispatch-Permits_example = dispatch-Permits (λ s. s) agent quiet restart []
