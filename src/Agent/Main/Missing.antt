-- ===== src/Agent/Main/Missing.antt =====
-- An agent that was started without its database.
use gratis.Agent.Main.Managers.{start_agent-some, start_agent-none}
use gratis.Agent.Dispatch.{dispatch}
use gratis.Agent.Dispatch.Results.{dispatch-refuses, refusal, is_refused}
use gratis.Host.{
  wrapf, message, sql_open, ok, err, wrap, pure, sql_ping, Error, perform, attempt, Trace, ◌>>=◌,
  Env,
}
use gratis.Agent.Main.{dns_client, settings, start_agent, Agent, Flags, database_manager}
use gratis.Proto.{
  delete_email_alias, create_email_alias, delete_email_domain, create_email_domain, delete_email,
  Command, create_email, delete_database, create_database, Payload,
}
use gratis.Agent.Database.{new_manager}
use gratis.Base.{
  Bool-cases, inl, inr, Option-cases, ◌++◌, refl, some, false, true, Bool, ◌≡◌, Option, ◌∷◌, [],
}
use gratis.Agent.Database
use gratis.Agent.Dns
use gratis.Text.{bytes, Str}

-- The database server does not answer.
abbrev pub Unreachable : Env → Type 0
Unreachable env = (t : Trace) → (e : Error) × ((env t sql_ping).failure ≡ some e)

new_manager-fails :
    (env : Env) (socket : Str) (t : Trace)
    → Unreachable env
    → (e : Error) × ((Database.new_manager env socket t).0 ≡ err e)
unfolding new_manager ◌>>=◌ perform wrap pure
new_manager-fails env socket t down =
    let opened = sql_open (bytes "root@unix(" ++ (socket ++ bytes ")/")) in
    elim (Option-cases (env t opened).failure) [
      | inr (e, p) ↦ (e, rw p refl)
      | inl p ↦
          let (e, q) = down (opened ∷ t) in
          (wrapf "connect to MariaDB at %s: %w" (socket ∷ []) e [], rw (p, q) refl)
    ]

database_manager-fails :
    (env : Env) (socket : Str) (t : Trace)
    → Unreachable env
    → (t' : Trace) × (database_manager env socket t ≡ (ok false, t'))
unfolding database_manager ◌>>=◌ attempt pure
database_manager-fails env socket t down =
    let (e, p) = new_manager-fails env socket t down in
    ((Database.new_manager env socket t).1, rw p refl)

-- The commands of the database and of the mail.
abbrev pub needs_database : Payload → Bool
needs_database (create_database cmd) = true
needs_database (delete_database cmd) = true
needs_database (create_email cmd) = true
needs_database (delete_email cmd) = true
needs_database (create_email_domain cmd) = true
needs_database (delete_email_domain cmd) = true
needs_database (create_email_alias cmd) = true
needs_database (delete_email_alias cmd) = true
needs_database _ = false

needs_database-refused :
    (c : Option Dns.Client) (p : Payload)
    → needs_database p ≡ true
    → is_refused (record { db = false; dns = c; email = false }) p ≡ true
needs_database-refused c (create_database cmd) h = refl
needs_database-refused c (delete_database cmd) h = refl
needs_database-refused c (create_email cmd) h = refl
needs_database-refused c (delete_email cmd) h = refl
needs_database-refused c (create_email_domain cmd) h = refl
needs_database-refused c (delete_email_domain cmd) h = refl
needs_database-refused c (create_email_alias cmd) h = refl
needs_database-refused c (delete_email_alias cmd) h = refl
needs_database-refused c _ h = cc

-- An agent that was started while MariaDB did not answer refuses every command of the database and of
-- the mail, without a call to its host, whatever becomes of MariaDB later.
pub start_agent-without_database :
    (env : Env) (getenv : Str → Str) (flags : Flags) (t : Trace) (a : Agent)
    → Unreachable env
    → (start_agent env getenv flags t).0 ≡ ok (some a)
    → (wide : Str → Str) (later : Env) (cmd : Command) (t' : Trace)
    → needs_database cmd.payload ≡ true
    → dispatch wide a.dispatcher later cmd t' ≡ (
      some (record {
        command_id = cmd.command_id;
        success = false;
        error = message (refusal cmd.payload);
      }),
      t',
    )
start_agent-without_database env getenv flags t a down h wide later cmd t' needs =
    elim (Option-cases (settings getenv flags)) [
      | inl e ↦ absurd (cc (h, start_agent-none env getenv flags t e))
      | inr (f, e) ↦
          let m = start_agent-some env getenv flags f t e in
          let (t'', fails) = database_manager-fails env f.db_socket t down in
          let no_db : m.db ≡ false = cc (m.database, fails) in
          let no_mail : m.email ≡ false = elim (Bool-cases m.email) [
            | inl mail ↦ cc (no_db, m.mail_needs_database mail)
            | inr off ↦ off
          ] in
          let d : a.dispatcher
              ≡ record { db = false; dns = dns_client f.pdns_url f.pdns_key; email = false } =
            cc (h, m.agent, no_db, no_mail) in
          dispatch-refuses wide a.dispatcher later cmd t'
            (rw d (needs_database-refused (dns_client f.pdns_url f.pdns_key) cmd.payload needs))
    ]
