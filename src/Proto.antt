-- ===== src/Proto.antt =====
-- The messages between agent and API, of proto/agent/v1/agent.proto as gen/agent/v1/agent.pb.go
-- declares them. A message inside a message is a pointer there, and an `Option` here where the
-- code reads it without a test. Floats are a parameter: the type of those that metrics carry.
use gratis.Text.{Str}
use gratis.Base.{List, ℕ, Bool, Option}

-- Commands.
pub record CreateAccountCmd : Type 0 where
  pub username : Str
  pub uid : ℕ
  pub homedir : Str
  pub disk_quota_bytes : ℕ

pub record DeleteAccountCmd : Type 0 where
  pub username : Str
  pub purge_files : Bool

pub record CreateVhostCmd : Type 0 where
  pub username : Str
  pub domain : Str
  pub docroot : Str
  pub php_version : Str
  pub ssl : Bool
  pub aliases : List Str

pub record DeleteVhostCmd : Type 0 where
  pub domain : Str

pub record CreateDatabaseCmd : Type 0 where
  pub db_name : Str
  pub db_user : Str
  pub password : Str

pub record DeleteDatabaseCmd : Type 0 where
  pub db_name : Str
  pub db_user : Str

pub record CreateEmailCmd : Type 0 where
  pub address : Str
  pub password : Str
  pub quota_bytes : ℕ

pub record DeleteEmailCmd : Type 0 where
  pub address : Str
  pub purge_mail : Bool

pub record CreateEmailDomainCmd : Type 0 where
  pub domain : Str
  pub setup_dkim : Bool

pub record DeleteEmailDomainCmd : Type 0 where
  pub domain : Str
  pub purge_mail : Bool

pub record CreateEmailAliasCmd : Type 0 where
  pub source : Str
  pub destination : Str

pub record DeleteEmailAliasCmd : Type 0 where
  pub source : Str

pub record DnsRecord : Type 0 where
  pub name : Str
  pub type : Str
  pub content : Str
  pub ttl : ℕ
  pub priority : ℕ

pub record CreateDnsZoneCmd : Type 0 where
  pub zone : Str
  pub records : List DnsRecord

pub record DeleteDnsZoneCmd : Type 0 where
  pub zone : Str

pub record UpsertDnsRecordCmd : Type 0 where
  pub zone : Str
  -- nil where the message has none
  pub dns_record : Option DnsRecord

pub record DeleteDnsRecordCmd : Type 0 where
  pub zone : Str
  pub name : Str
  pub type : Str

pub record IssueCertCmd : Type 0 where
  pub domain : Str
  pub sans : List Str
  pub webroot : Str
  pub dns_challenge : Bool

pub record RestartServiceCmd : Type 0 where
  pub service : Str

-- The oneof of a Command; `unset` is a command with none of them.
pub data Payload : Type 0 where
  create_account : CreateAccountCmd → Payload
  delete_account : DeleteAccountCmd → Payload
  create_vhost : CreateVhostCmd → Payload
  delete_vhost : DeleteVhostCmd → Payload
  create_database : CreateDatabaseCmd → Payload
  delete_database : DeleteDatabaseCmd → Payload
  create_email : CreateEmailCmd → Payload
  delete_email : DeleteEmailCmd → Payload
  create_email_domain : CreateEmailDomainCmd → Payload
  delete_email_domain : DeleteEmailDomainCmd → Payload
  create_email_alias : CreateEmailAliasCmd → Payload
  delete_email_alias : DeleteEmailAliasCmd → Payload
  create_dns_zone : CreateDnsZoneCmd → Payload
  delete_dns_zone : DeleteDnsZoneCmd → Payload
  upsert_dns_record : UpsertDnsRecordCmd → Payload
  delete_dns_record : DeleteDnsRecordCmd → Payload
  issue_cert : IssueCertCmd → Payload
  restart_service : RestartServiceCmd → Payload
  unset : Payload

pub record Command : Type 0 where
  pub command_id : Str
  pub payload : Payload

pub record CommandResult : Type 0 where
  pub command_id : Str
  pub success : Bool
  pub error : Str

pub record RegisterRequest : Type 0 where
  pub token : Str
  pub hostname : Str
  pub os : Str
  pub arch : Str
  pub version : Str

pub record RegisterResponse : Type 0 where
  pub accepted : Bool
  pub server_id : Str
  pub message : Str

pub record LogEntry : Type 0 where
  pub command_id : Str
  pub message : Str

pub record SystemMetrics (Float : Type 0) : Type 0 where
  pub cpu_percent : Float
  pub mem_total : ℕ
  pub mem_used : ℕ
  pub disk_total : ℕ
  pub disk_used : ℕ
  pub load_1 : Float
  pub load_5 : Float
  pub load_15 : Float

-- The timestamp and the list of services, which is always empty, are read by nobody.
pub record Heartbeat (Float : Type 0) : Type 0 where
  pub metrics : Option (SystemMetrics Float)

-- The oneofs of the two directions; `empty` is a message with no payload.
pub data AgentMessage (Float : Type 0) : Type 0 where
  register : RegisterRequest → AgentMessage Float
  heartbeat : Heartbeat Float → AgentMessage Float
  command_result : CommandResult → AgentMessage Float
  log : LogEntry → AgentMessage Float
  empty : AgentMessage Float

pub data ServerMessage : Type 0 where
  register_response : RegisterResponse → ServerMessage
  command : Command → ServerMessage
  empty : ServerMessage
