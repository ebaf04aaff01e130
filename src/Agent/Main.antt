-- ===== src/Agent/Main.antt =====
-- agent/cmd/agent/main.go: the settings of the agent, and the managers that it is started with. The
-- flags are parsed by Go, and what they and the environment hold are parameters. Signals, the log and
-- the closing of the database at the end are not modelled.
pub mod Managers
pub mod Missing
pub mod Exit
pub mod Tests
use gratis.Settings.{flag_or_env}
use gratis.Agent.Dispatch.{Dispatcher}
use gratis.Host.{err, attempt, ok, ◌>>=◌, pure, M, Result, Env}
use gratis.Base.{◌&&◌, not, false, [], true, some, none, Bool, if◌then◌else◌, Option}
use gratis.Agent.Database
use gratis.Agent.Dns
use gratis.Agent.Email
use gratis.Text.{str_eq, bytes, Str}

-- The flags, each with its default where it was not given.
pub record Flags : Type 0 where
  pub api : Str
  pub token : Str
  pub db_socket : Str
  pub pdns_url : Str
  pub pdns_key : Str

-- The settings behind the environment; `none` is the exit for a missing token.
unfoldable pub settings : (Str → Str) → Flags → Option Flags
unfolding flag_or_env
settings getenv f =
    let token = flag_or_env f.token (getenv (bytes "GRATIS_TOKEN")) in
    if str_eq token []
    then none
    else some (record f {
      token = token;
      pdns_key = flag_or_env f.pdns_key (getenv (bytes "GRATIS_PDNS_KEY"));
    })

-- Whether some code came to its end without an error.
abbrev succeeded : Result (Unit {0}) → Bool
succeeded (ok u) = true
succeeded (err e) = false

-- dbManager, which is nil where MariaDB cannot be reached.
unfoldable pub database_manager : Env → Str → M Bool
database_manager env socket = do r ← attempt (Database.new_manager env socket); pure (succeeded r)

-- dnsClient
unfoldable pub dns_client : Str → Str → Option Dns.Client
dns_client url key =
    if not (str_eq url []) && not (str_eq key []) then some (Dns.new_client url key) else none

-- emailMgr, which is nil without a database or where the tables cannot be set up.
unfoldable pub email_manager : Env → Bool → M Bool
email_manager env false = pure false
email_manager env true = do r ← attempt (Email.setup_schema env); pure (succeeded r)

-- rpc.Agent, as main makes it; lastCPU is zero at first, and an argument of build_heartbeat.
pub record Agent : Type 0 where
  pub api_addr : Str
  pub token : Str
  pub dispatcher : Dispatcher

-- main, up to the start of the agent; `none` is the exit for a missing token.
unfoldable pub start_agent : Env → (Str → Str) → Flags → M (Option Agent)
start_agent env getenv flags = elim (settings getenv flags) [
  | none ↦ pure none
  | some f ↦ do
    db ← database_manager env f.db_socket
    email ← email_manager env db
    pure (
        some (record {
          api_addr = f.api;
          token = f.token;
          dispatcher = record { db = db; dns = dns_client f.pdns_url f.pdns_key; email = email };
        }))
]
