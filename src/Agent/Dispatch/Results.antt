-- ===== src/Agent/Dispatch/Results.antt =====
-- What dispatch.go reports for a command.
use gratis.Agent.Dns.{Client}
use gratis.Host.{raise, errorf, message, Result, M, ok, err, Error, Trace, Env}
use gratis.Base.{
  ap, ◌∷◌, [], Option, String, refl, arith, ◌↔◌, none, some, ◌≡◌, false, true, not, ◌||◌, Bool,
}
use gratis.Text.{bytes, Str}
use gratis.Agent.Dispatch.{
  handle_upsert_dns_record, answer_for, email_missing, dns_missing, result_of, db_missing,
  with_client, when_configured, is_there, handle, dispatch, Dispatcher,
}
use gratis.Proto.{
  DnsRecord, UpsertDnsRecordCmd, restart_service, delete_account, create_account, delete_vhost,
  create_vhost, delete_email_alias, create_email_alias, delete_email_domain, create_email_domain,
  delete_email, create_email, delete_dns_record, upsert_dns_record, CommandResult, delete_dns_zone,
  create_dns_zone, unset, delete_database, issue_cert, Command, create_database, Payload,
}

-- A payload that needs a manager which the agent does not have.
abbrev pub needs_missing : Dispatcher → Payload → Bool
needs_missing d (create_database cmd) = not d.db
needs_missing d (delete_database cmd) = not d.db
needs_missing d (create_dns_zone cmd) = not (is_there d.dns)
needs_missing d (delete_dns_zone cmd) = not (is_there d.dns)
needs_missing d (upsert_dns_record cmd) = not (is_there d.dns)
needs_missing d (delete_dns_record cmd) = not (is_there d.dns)
needs_missing d (create_email cmd) = not d.email
needs_missing d (delete_email cmd) = not d.email
needs_missing d (create_email_domain cmd) = not d.email
needs_missing d (delete_email_domain cmd) = not d.email
needs_missing d (create_email_alias cmd) = not d.email
needs_missing d (delete_email_alias cmd) = not d.email
needs_missing d p = false

-- A payload that no handler takes.
abbrev pub is_unhandled : Payload → Bool
is_unhandled (issue_cert cmd) = true
is_unhandled unset = true
is_unhandled p = false

-- The error with which such a payload is refused.
abbrev pub refusal : Payload → Error
refusal (create_database cmd) = errorf db_missing []
refusal (delete_database cmd) = errorf db_missing []
refusal (create_dns_zone cmd) = errorf dns_missing []
refusal (delete_dns_zone cmd) = errorf dns_missing []
refusal (upsert_dns_record cmd) = errorf dns_missing []
refusal (delete_dns_record cmd) = errorf dns_missing []
refusal (issue_cert cmd) =
    errorf "unhandled command type %T" (bytes "*agentv1.Command_IssueCert" ∷ [])
refusal unset = errorf "unhandled command type %T" (bytes "<nil>" ∷ [])
refusal p = errorf email_missing []

abbrev pub is_refused : Dispatcher → Payload → Bool
is_refused d p = needs_missing d p || is_unhandled p

module _ (wide : Str → Str) (d : Dispatcher) (env : Env) where
  refuses-when_configured :
      (b : Bool) (s : String) (m : M (Unit {0})) (t : Trace)
      → not b ≡ true
      → when_configured b s m t ≡ (err (errorf s []), t)
  unfolding when_configured raise
  refuses-when_configured b s m t h = ground arith

  refuses-with_client :
      (o : Option Client) (f : Client → M (Unit {0})) (t : Trace)
      → not (is_there o) ≡ true
      → with_client o f t ≡ (err (errorf dns_missing []), t)
  unfolding with_client raise
  refuses-with_client none f t h = refl
  refuses-with_client (some c) f t h = cc

  refuses-upsert :
      (o : Option Client) (cmd : UpsertDnsRecordCmd) (t : Trace)
      → not (is_there o) ≡ true
      → handle_upsert_dns_record wide env o cmd t ≡ (some (err (errorf dns_missing [])), t)
  unfolding handle_upsert_dns_record raise
  refuses-upsert none cmd t h = refl
  refuses-upsert (some c) cmd t h = cc

  abbrev answered : Result (Unit {0}) × Trace → Option (Result (Unit {0})) × Trace
  answered (r, t) = (some r, t)

  handle-refuses :
      (p : Payload) (t : Trace)
      → is_refused d p ≡ true
      → handle wide d env p t ≡ (some (err (refusal p)), t)
  unfolding handle raise
  handle-refuses (create_database cmd) t h =
      ap answered (refuses-when_configured d.db _ _ t (ground arith))
  handle-refuses (delete_database cmd) t h =
      ap answered (refuses-when_configured d.db _ _ t (ground arith))
  handle-refuses (create_dns_zone cmd) t h =
      ap answered (refuses-with_client d.dns _ t (ground arith))
  handle-refuses (delete_dns_zone cmd) t h =
      ap answered (refuses-with_client d.dns _ t (ground arith))
  handle-refuses (upsert_dns_record cmd) t h = refuses-upsert d.dns cmd t (ground arith)
  handle-refuses (delete_dns_record cmd) t h =
      ap answered (refuses-with_client d.dns _ t (ground arith))
  handle-refuses (create_email cmd) t h =
      ap answered (refuses-when_configured d.email _ _ t (ground arith))
  handle-refuses (delete_email cmd) t h =
      ap answered (refuses-when_configured d.email _ _ t (ground arith))
  handle-refuses (create_email_domain cmd) t h =
      ap answered (refuses-when_configured d.email _ _ t (ground arith))
  handle-refuses (delete_email_domain cmd) t h =
      ap answered (refuses-when_configured d.email _ _ t (ground arith))
  handle-refuses (create_email_alias cmd) t h =
      ap answered (refuses-when_configured d.email _ _ t (ground arith))
  handle-refuses (delete_email_alias cmd) t h =
      ap answered (refuses-when_configured d.email _ _ t (ground arith))
  handle-refuses (issue_cert cmd) t h = refl
  handle-refuses unset t h = refl
  handle-refuses (create_vhost cmd) t h = cc
  handle-refuses (delete_vhost cmd) t h = cc
  handle-refuses (create_account cmd) t h = cc
  handle-refuses (delete_account cmd) t h = cc
  handle-refuses (restart_service cmd) t h = cc

  -- A command for a manager that the agent does not have, or that no handler takes, makes no call
  -- and is answered by a failure under its own id.
  pub dispatch-refuses :
      (cmd : Command) (t : Trace)
      → is_refused d cmd.payload ≡ true
      → dispatch wide d env cmd t ≡ (
        some (record {
          command_id = cmd.command_id;
          success = false;
          error = message (refusal cmd.payload);
        }),
        t,
      )
  unfolding dispatch
  dispatch-refuses cmd t h = rw (handle-refuses cmd.payload t h) refl

  pub success-result_of :
      (id : Str) (r : Result (Unit {0}))
      → ((result_of wide id r).command_id ≡ id)
        × (((result_of wide id r).success ≡ true) ↔ (r ≡ ok tt))
  success-result_of id (ok u) = (refl, (λ h. refl, λ h. refl))
  success-result_of id (err e) = (refl, (λ h. cc, λ h. cc))

  -- An upsert of no record, for an agent with a DNS client.
  abbrev pub LacksRecord : Payload → Type 0
  LacksRecord p =
      (c : Client) × (zone : Str) × (d.dns ≡ some c)
      × (p ≡ upsert_dns_record (record { zone = zone; dns_record = none }))

  upsert-panics :
      (o : Option Client) (cmd : UpsertDnsRecordCmd) (x : Option DnsRecord) (t : Trace)
      → d.dns ≡ o
      → cmd.dns_record ≡ x
      → (handle_upsert_dns_record wide env o cmd t).0 ≡ none
      → LacksRecord (upsert_dns_record cmd)
  unfolding handle_upsert_dns_record
  upsert-panics none cmd x t e q h = cc h
  upsert-panics (some c) cmd none t e q h =
      (c, cmd.zone, e, ap (λ y. upsert_dns_record (record { zone = cmd.zone; dns_record = y })) q)
  upsert-panics (some c) cmd (some r) t e q h = let k = rw q at h in cc k

  handle-panics : (p : Payload) (t : Trace) → (handle wide d env p t).0 ≡ none → LacksRecord p
  unfolding handle
  handle-panics (upsert_dns_record cmd) t h = upsert-panics d.dns cmd cmd.dns_record t refl refl h
  handle-panics _ t h = cc h

  answer_for-none :
      (id : Str) (o : Option (Result (Unit {0}))) → answer_for wide id o ≡ none → o ≡ none
  answer_for-none id none h = refl
  answer_for-none id (some r) h = cc h

  -- The agent panics exactly at an upsert of no record, where it has a DNS client.
  pub dispatch-panics_iff :
      (cmd : Command) (t : Trace) → ((dispatch wide d env cmd t).0 ≡ none) ↔ LacksRecord cmd.payload
  unfolding dispatch handle handle_upsert_dns_record
  dispatch-panics_iff cmd t = (
    λ h. handle-panics cmd.payload t (answer_for-none cmd.command_id _ h),
    λ (c, zone, there, same). rw (same, there) refl,
  )

  success-answer_for :
      (id : Str) (o : Option (Result (Unit {0}))) {r : CommandResult}
      → answer_for wide id o ≡ some r
      → (r.command_id ≡ id) × ((r.success ≡ true) ↔ (o ≡ some (ok tt)))
  success-answer_for id none h = cc
  success-answer_for id (some (ok u)) h = (cc (h), (λ k. refl, λ k. cc (h)))
  success-answer_for id (some (err e)) h = (cc (h), (λ k. cc (k, h), λ k. cc k))

  -- A command that the agent survives is answered under its own id, as a success exactly when its
  -- handler returned no error.
  pub dispatch_answers :
      (cmd : Command) (t : Trace) {r : CommandResult}
      → (dispatch wide d env cmd t).0 ≡ some r
      → (r.command_id ≡ cmd.command_id)
        × ((r.success ≡ true) ↔ ((handle wide d env cmd.payload t).0 ≡ some (ok tt)))
  unfolding dispatch
  dispatch_answers cmd t h = success-answer_for cmd.command_id _ h
