-- ===== src/Agent/Dispatch.antt =====
-- agent/internal/rpc/dispatch.go: from a command to the handlers of the modules.
pub mod Safety
pub mod Results
pub mod Tests
pub mod Vhosts
use gratis.Text.{str_eq, bytes, Str}
use gratis.Host.{
  message, pure, err, done, wrapf, errorf, wrap, attempt, ok, ◌>>=◌, ◌>>◌, Trace, raise, Result, M,
  Env,
}
use gratis.Base.{
  ◌&&◌, map, ◌||◌, some, true, not, none, [], ◌∷◌, if◌then◌else◌, false, Option, List, String, Bool,
}
use gratis.Agent.Accounts
use gratis.Agent.Webserver
use gratis.Agent.Database
use gratis.Agent.Dns
use gratis.Agent.Email
use gratis.Agent.Email.Dkim
use gratis.Proto.{
  UpsertDnsRecordCmd, CreateVhostCmd, RestartServiceCmd, DnsRecord, CreateEmailDomainCmd,
  DeleteEmailDomainCmd, Payload, Command, CommandResult, create_account, delete_account,
  create_vhost, delete_vhost, create_database, delete_database, create_email, delete_email,
  create_email_domain, delete_email_domain, create_email_alias, delete_email_alias, create_dns_zone,
  delete_dns_zone, upsert_dns_record, delete_dns_record, issue_cert, restart_service, unset,
}

-- Which managers the agent has: a nil pointer is `false`, or no client.
pub record Dispatcher : Type 0 where
  pub db : Bool
  pub dns : Option Dns.Client
  pub email : Bool

pub allowed_services : List Str
allowed_services =
    bytes "nginx"
    ∷ bytes "apache2"
    ∷ bytes "php8.1-fpm"
    ∷ bytes "php8.2-fpm"
    ∷ bytes "php8.3-fpm"
    ∷ bytes "postfix"
    ∷ bytes "dovecot"
    ∷ bytes "pdns"
    ∷ bytes "mariadb"
    ∷ bytes "mysqld"
    ∷ []

pub is_listed : Str → List Str → Bool
is_listed s [] = false
is_listed s (x ∷ xs) = str_eq x s || is_listed s xs

pub handle_restart_service : Env → RestartServiceCmd → M (Unit {0})
handle_restart_service env cmd =
    if not (is_listed cmd.service allowed_services)
    then raise (errorf "service %q is not in the allowed restart list" (cmd.service ∷ []))
    else Webserver.restart_service env cmd.service

pub handle_create_vhost : Env → CreateVhostCmd → M (Unit {0})
handle_create_vhost env cmd = Webserver.create_vhost env (record {
  domain = cmd.domain;
  aliases = cmd.aliases;
  docroot = cmd.docroot;
  php_version = cmd.php_version;
})

-- The test at the head of the handlers of one manager.
pub when_configured : Bool → String → M (Unit {0}) → M (Unit {0})
when_configured configured message' m = if configured then m else raise (errorf message' [])

abbrev pub db_missing : String
db_missing = "database manager not configured on this server"

abbrev pub dns_missing : String
dns_missing = "DNS client not configured on this server"

abbrev pub email_missing : String
email_missing = "email manager not configured on this server"

-- The DNS handlers, with the client if there is one.
pub with_client : Option Dns.Client → (Dns.Client → M (Unit {0})) → M (Unit {0})
with_client none f = raise (errorf dns_missing [])
with_client (some c) f = f c

pub zone_record : DnsRecord → Dns.ZoneRecord
zone_record r = record {
  name = r.name;
  type = r.type;
  content = r.content;
  ttl = r.ttl;
  priority = r.priority;
}

pub handle_create_email_domain : Env → CreateEmailDomainCmd → M (Unit {0})
handle_create_email_domain env cmd = do
  Email.add_domain env cmd.domain
  if cmd.setup_dkim
      then wrap (λ e. wrapf "dkim setup: %w" [] e []) (done (Dkim.setup_dkim env cmd.domain))
      else pure tt

-- A failure of RemoveDKIM is logged, and the domain is removed all the same.
pub handle_delete_email_domain : Env → DeleteEmailDomainCmd → M (Unit {0})
handle_delete_email_domain env cmd = do
  _ ← attempt (Dkim.remove_dkim env cmd.domain)
  Email.remove_domain env cmd.domain cmd.purge_mail

-- A pointer is not nil.
abbrev pub is_there : {A : Type 0} → Option A → Bool
is_there none = false
is_there (some a) = true

-- Code that makes calls and may panic: `none` is the panic.
abbrev pub Handler : Type 0
Handler = Trace → Option (Result (Unit {0})) × Trace

-- Code that does not panic.
abbrev pub returns : M (Unit {0}) → Handler
returns m t = let (r, t') = m t in (some r, t')

-- The fields behind a pointer are read: a nil one panics, before any call of what follows.
abbrev pub dereference : {A : Type 0} → Option A → (A → Handler) → Handler
dereference none f t = (none, t)
dereference (some a) f t = f a t

module _ (wide : Str → Str) where
  -- handleUpsertDNSRecord: the nil test of the client, and then the fields of cmd.Record.
  unfoldable pub handle_upsert_dns_record : Env → Option Dns.Client → UpsertDnsRecordCmd → Handler
  handle_upsert_dns_record env none cmd = returns (raise (errorf dns_missing []))
  handle_upsert_dns_record env (some c) cmd =
      dereference cmd.dns_record
        (λ r. returns (Dns.upsert_record wide env c cmd.zone (zone_record r)))

  -- The handler of each command, with its error.
  unfoldable pub handle : Dispatcher → Env → Payload → Handler
  unfolding when_configured with_client handle_upsert_dns_record
  handle d env (create_vhost cmd) = returns (handle_create_vhost env cmd)
  handle d env (delete_vhost cmd) = returns (Webserver.delete_vhost env cmd.domain)
  handle d env (create_account cmd) =
      returns (Accounts.create_account env cmd.username cmd.uid cmd.homedir cmd.disk_quota_bytes)
  handle d env (delete_account cmd) =
      returns (Accounts.delete_account env cmd.username cmd.purge_files)
  handle d env (create_database cmd) = returns (
      when_configured d.db db_missing
        (Database.create_database env cmd.db_name cmd.db_user cmd.password))
  handle d env (delete_database cmd) =
      returns
        (when_configured d.db db_missing (Database.delete_database env cmd.db_name cmd.db_user))
  handle d env (create_dns_zone cmd) =
      returns
        (with_client d.dns (λ c. Dns.create_zone wide env c cmd.zone (map zone_record cmd.records)))
  handle d env (delete_dns_zone cmd) =
      returns (with_client d.dns (λ c. Dns.delete_zone env c cmd.zone))
  handle d env (upsert_dns_record cmd) = handle_upsert_dns_record env d.dns cmd
  handle d env (delete_dns_record cmd) =
      returns (with_client d.dns (λ c. Dns.delete_record wide env c cmd.zone cmd.name cmd.type))
  handle d env (create_email cmd) = returns (
      when_configured d.email email_missing
        (Email.create_account env cmd.address cmd.password cmd.quota_bytes))
  handle d env (delete_email cmd) =
      returns (
        when_configured d.email email_missing (Email.delete_account env cmd.address cmd.purge_mail))
  handle d env (create_email_domain cmd) =
      returns (when_configured d.email email_missing (handle_create_email_domain env cmd))
  handle d env (delete_email_domain cmd) =
      returns (when_configured d.email email_missing (handle_delete_email_domain env cmd))
  handle d env (create_email_alias cmd) =
      returns
        (when_configured d.email email_missing (Email.create_alias env cmd.source cmd.destination))
  handle d env (delete_email_alias cmd) =
      returns (when_configured d.email email_missing (Email.delete_alias env cmd.source))
  handle d env (restart_service cmd) = returns (handle_restart_service env cmd)
  handle d env (issue_cert cmd) =
      returns (raise (errorf "unhandled command type %T" (bytes "*agentv1.Command_IssueCert" ∷ [])))
  handle d env unset = returns (raise (errorf "unhandled command type %T" (bytes "<nil>" ∷ [])))

  abbrev pub result_of : Str → Result (Unit {0}) → CommandResult
  result_of id (ok u) = record { command_id = id; success = true; error = [] }
  result_of id (err e) = record { command_id = id; success = false; error = message e }

  abbrev pub answer_for : Str → Option (Result (Unit {0})) → Option CommandResult
  answer_for id none = none
  answer_for id (some r) = some (result_of id r)

  -- Dispatch; `none` is a panic of the agent.
  unfoldable pub dispatch : Dispatcher → Env → Command → Trace → Option CommandResult × Trace
  unfolding handle
  dispatch d env cmd t =
      let (o, t') = handle d env cmd.payload t in (answer_for cmd.command_id o, t')
