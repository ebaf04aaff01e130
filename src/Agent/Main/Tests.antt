-- ===== src/Agent/Main/Tests.antt =====
-- Starts of the agent.
use gratis.Agent.Session.Turns.{IsFatal, panics, Turn}
use gratis.Agent.Main.Exit.{exit_status_iff, Exits}
use gratis.Agent.Main.Exit.{exit_status}
use gratis.Agent.Metrics.{Floats}
use gratis.Agent.Session.Run.{Round}
use gratis.Agent.Main.Missing.{start_agent-without_database}
use gratis.Agent.Dispatch.Results.{refusal}
use gratis.Agent.Main.Managers.{NoToken}
use gratis.Host.{err, ◌>>=◌, message, external, ok, Env}
use gratis.Agent.Main.{
  dns_client, email_manager, database_manager, settings, start_agent, Agent, Flags,
}
use gratis.Settings.{flag_or_env}
use gratis.Proto.{delete_database, Command}
use gratis.Base.{List, ℕ, ◌∷◌, [], refl, false, ◌⊎◌, ◌↔◌, some, none, true, ◌≡◌}
use gratis.Agent.Dispatch.{Dispatcher, dispatch}
use gratis.Agent.Database
use gratis.Text.{str_eq, bytes, Str}

-- A host on which nothing succeeds.
abbrev down : Env
down t c = record { text = []; number = 0; failure = some (external (bytes "refused")) }

abbrev nothing_set : Str → Str
nothing_set v = []

abbrev by_flag : Flags
by_flag = record {
  api = bytes "localhost:9090";
  token = bytes "t";
  db_socket = bytes "/run/db";
  pdns_url = bytes "http://ns";
  pdns_key = [];
}

abbrev no_managers : Agent
no_managers = record {
  api_addr = bytes "localhost:9090";
  token = bytes "t";
  dispatcher = record { db = false; dns = none; email = false };
}

starts : (start_agent down nothing_set by_flag []).0 ≡ ok (some no_managers)
unfolding start_agent settings flag_or_env database_manager email_manager dns_client str_eq bytes
    Database.new_manager ◌>>=◌
starts = refl

abbrev quiet : Env
quiet t c = record { text = []; number = 200; failure = none }

abbrev drop_shop : Command
drop_shop = record {
  command_id = bytes "c1";
  payload = delete_database (record { db_name = bytes "shop"; db_user = bytes "shop" });
}

start_agent-without_database_example :
    dispatch (λ s. s) (no_managers.dispatcher) quiet drop_shop [] ≡ (
      some (record {
        command_id = bytes "c1";
        success = false;
        error = message (refusal (drop_shop.payload));
      }),
      [],
    )
start_agent-without_database_example =
    start_agent-without_database down nothing_set by_flag [] no_managers
      (λ t. (external (bytes "refused"), refl)) starts (λ s. s) quiet drop_shop [] refl

abbrev counts : Floats
counts = record {
  Float = ℕ;
  of_uint = λ n. n;
  divide = λ a b. a;
  times = λ a b. a;
  parse_float = λ s. 0;
}

-- The API is not there, and the program is stopped.
abbrev stopped_round : Round counts
stopped_round = record {
  meanwhile = [];
  wire = record {
    dialled = none;
    opened = some (external (bytes "refused"));
    registered = none;
    received = err (external (bytes "refused"));
  };
  events = [];
  waiting = [];
  stopped = true;
}

exit_status_iff_example :
    ((exit_status {fl = counts} (λ s. s) down nothing_set by_flag [] (stopped_round ∷ []) ≡ some 0)
      ↔ ((NoToken nothing_set by_flag × (Path ℕ 0 1))
          ⊎ (¬ NoToken nothing_set by_flag
              × ((a : Agent) × ((start_agent down nothing_set by_flag []).0 ≡ ok (some a))
                  × Exits {fl = counts}
                      (λ s. s)
                      a.dispatcher
                      (bytes "localhost:9090")
                      (stopped_round ∷ [])
                      0))))
    × ((d : Dispatcher) (sent : List Command) (turn : Turn)
        → (panics (λ s. s) d sent turn ≡ true) ↔ IsFatal (λ s. s) d sent turn)
exit_status_iff_example =
    exit_status_iff {fl = counts} (λ s. s) down nothing_set by_flag [] (stopped_round ∷ []) 0
