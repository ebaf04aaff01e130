-- ===== src/Agent/Dispatch/Safety.antt =====
-- What the agent of dispatch.go can be made to do by a command.
use gratis.Agent.Database.Statements.{
  DropStatement, delete_database-DropStatement, create_database-CreateStatement, CreateStatement,
}
use gratis.Agent.Accounts.Calls.{DropCall, delete_account-DropCall, AddCall, create_account-AddCall}
use gratis.Agent.Dispatch.Vhosts.{vhost_config}
use gratis.Agent.Dns.Calls.{
  delete_record-Patches, delete_zone-DnsCall, DnsCall, create_zone-ZoneCall, ZoneCall,
  upsert_record-Patches, Patches,
}
use gratis.Agent.Webserver.Calls.{
  restart_service-Issues, UninstallCall, delete_vhost-UninstallCall, InstallCall,
  create_vhost-InstallCall,
}
use gratis.Agent.Email.Dkim.Calls.{
  setup_dkim-SetupCall, remove_dkim-CleanupCall, SetupCall, CleanupCall,
}
use gratis.Agent.Email.Calls.{
  delete_alias-DropAliasCall, DropAliasCall, create_alias-AliasCall, AliasCall,
  delete_account-DropMailboxCall, DropMailboxCall, MailboxCall, create_account-MailboxCall,
  remove_domain-RemoveDomainCall, add_domain-AddDomainCall, RemoveDomainCall, AddDomainCall,
}
use gratis.Host.Rules.{
  Issues-pure, Issues-wrap, Issues-attempt, Issues-mono, Issues-bind, Issues-if, Issues-raise,
  Issues,
}
use gratis.Proto.{
  unset, issue_cert, restart_service, delete_email_alias, create_email_alias, delete_email_domain,
  create_email_domain, delete_email, create_email, delete_dns_record, upsert_dns_record,
  delete_dns_zone, create_dns_zone, delete_database, create_database, delete_account,
  create_account, delete_vhost, DnsRecord, UpsertDnsRecordCmd, create_vhost, Payload, Command,
  DeleteEmailDomainCmd, CreateEmailDomainCmd, RestartServiceCmd,
}
use gratis.Agent.Dns.{delete_rrset, zone_path, fqdn, upsert_rrset, Client}
use gratis.Text.{bytes, Str}
use gratis.Agent.Dispatch.{
  zone_record, allowed_services, is_listed, returns, handle_create_vhost, Dispatcher, handle,
  handle_restart_service, handle_create_email_domain, handle_upsert_dns_record, Handler,
  handle_delete_email_domain, dispatch, with_client, when_configured,
}
use gratis.Host.{raise, run, Trace, M, Env, Call}
use gratis.Base.{
  map, eq-true_of_not-eq-false, inr, inl, refl, not, All, ◌⊎◌, true, ◌++◌, some, ◌≡◌, List, String,
  Option, Bool, ◌∷◌, [], none,
}

-- The calls that a command may make, by the command: with a manager that the agent has, those that
-- belong to this command with its own arguments.
pub Permits : (Str → Str) → Dispatcher → Payload → Call → Type 0
Permits wide d (create_vhost cmd) k = InstallCall (vhost_config cmd) k
Permits wide d (delete_vhost cmd) k = UninstallCall cmd.domain k
Permits wide d (create_account cmd) k =
    AddCall cmd.username cmd.uid cmd.homedir cmd.disk_quota_bytes k
Permits wide d (delete_account cmd) k = DropCall cmd.username cmd.purge_files k
Permits wide d (create_database cmd) k =
    (d.db ≡ true) × CreateStatement cmd.db_name cmd.db_user cmd.password k
Permits wide d (delete_database cmd) k = (d.db ≡ true) × DropStatement cmd.db_name cmd.db_user k
Permits wide d (create_dns_zone cmd) k =
    (c : Client) × (d.dns ≡ some c) × ZoneCall wide c cmd.zone (map zone_record cmd.records) k
Permits wide d (delete_dns_zone cmd) k =
    (c : Client) × (d.dns ≡ some c) × DnsCall c "DELETE" (zone_path (fqdn cmd.zone)) none k
Permits wide d (upsert_dns_record cmd) k =
    (c : Client) × (r : DnsRecord) × (d.dns ≡ some c)
    × (cmd.dns_record ≡ some r)
    × Patches c cmd.zone (upsert_rrset wide (fqdn cmd.zone) (zone_record r) ∷ []) k
Permits wide d (delete_dns_record cmd) k =
    (c : Client) × (d.dns ≡ some c)
    × Patches c cmd.zone (delete_rrset wide (fqdn cmd.zone) cmd.name cmd.type ∷ []) k
Permits wide d (create_email cmd) k =
    (d.email ≡ true) × MailboxCall cmd.address cmd.password cmd.quota_bytes k
Permits wide d (delete_email cmd) k =
    (d.email ≡ true) × DropMailboxCall cmd.address cmd.purge_mail k
Permits wide d (create_email_domain cmd) k =
    (d.email ≡ true)
    × (AddDomainCall cmd.domain k ⊎ ((cmd.setup_dkim ≡ true) × SetupCall cmd.domain k))
Permits wide d (delete_email_domain cmd) k =
    (d.email ≡ true) × (CleanupCall cmd.domain k ⊎ RemoveDomainCall cmd.domain cmd.purge_mail k)
Permits wide d (create_email_alias cmd) k =
    (d.email ≡ true) × AliasCall cmd.source cmd.destination k
Permits wide d (delete_email_alias cmd) k = (d.email ≡ true) × DropAliasCall cmd.source k
Permits wide d (restart_service cmd) k =
    (is_listed cmd.service allowed_services ≡ true)
    × (k ≡ run (bytes "systemctl") (bytes "restart" ∷ cmd.service ∷ []))
Permits wide d (issue_cert cmd) k = ⊥
Permits wide d unset k = ⊥

-- The same of code that may panic.
Adds : (Call → Type 0) → Handler → Type 0
Adds P h = (t : Trace) → (cs : List Call) × ((h t).1 ≡ cs ++ t) × All P cs

Adds-returns : {P : Call → Type 0} (m : M (Unit {0})) → Issues P m → Adds P (returns m)
unfolding Adds
Adds-returns m i t = i.at t

Adds-when_configured :
    {P : Call → Type 0} (b : Bool) (s : String) (m : M (Unit {0}))
    → Issues P m
    → Adds (λ k. (b ≡ true) × P k) (returns (when_configured b s m))
unfolding when_configured
Adds-when_configured b s m i =
    Adds-returns _ (Issues-if b m _ (λ e. Issues-mono (λ k p. (e, p)) i) (λ _. Issues-raise _))

Adds-with_client :
    {P : Client → Call → Type 0} (o : Option Client) (f : Client → M (Unit {0}))
    → ((c : Client) → Issues (P c) (f c))
    → Adds (λ k. (c : Client) × (o ≡ some c) × P c k) (returns (with_client o f))
unfolding with_client
Adds-with_client none f i = Adds-returns _ (Issues-raise _)
Adds-with_client (some c) f i = Adds-returns _ (Issues-mono (λ k p. (c, refl, p)) (i c))

module _ (env : Env) where
  restart-Issues :
      (cmd : RestartServiceCmd)
      → Issues
          (λ k.
            (is_listed cmd.service allowed_services ≡ true)
            × (k ≡ run (bytes "systemctl") (bytes "restart" ∷ cmd.service ∷ [])))
          (handle_restart_service env cmd)
  unfolding handle_restart_service
  restart-Issues cmd =
      Issues-if (not (is_listed cmd.service allowed_services)) _ _ (λ _. Issues-raise _)
        λ e. restart_service-Issues env _ cmd.service (eq-true_of_not-eq-false _ e, refl)

  create_email_domain-Issues :
      (cmd : CreateEmailDomainCmd)
      → Issues
          (λ k. AddDomainCall cmd.domain k ⊎ ((cmd.setup_dkim ≡ true) × SetupCall cmd.domain k))
          (handle_create_email_domain env cmd)
  unfolding handle_create_email_domain
  create_email_domain-Issues cmd =
      Issues-bind _ _ (Issues-mono (λ k p. inl p) (add_domain-AddDomainCall env cmd.domain)) λ _.
        Issues-if cmd.setup_dkim _ _
          (λ e. Issues-wrap _ _ (
            Issues-bind _ _ (Issues-mono (λ k p. inr (e, p)) (setup_dkim-SetupCall env cmd.domain))
              (λ _. Issues-pure tt)))
          (λ _. Issues-pure tt)

  delete_email_domain-Issues :
      (cmd : DeleteEmailDomainCmd)
      → Issues
          (λ k. CleanupCall cmd.domain k ⊎ RemoveDomainCall cmd.domain cmd.purge_mail k)
          (handle_delete_email_domain env cmd)
  unfolding handle_delete_email_domain
  delete_email_domain-Issues cmd =
      Issues-bind _ _
        (Issues-attempt _ (Issues-mono (λ k p. inl p) (remove_dkim-CleanupCall env cmd.domain)))
        λ _.
          Issues-mono (λ k p. inr p) (remove_domain-RemoveDomainCall env cmd.domain cmd.purge_mail)

  module _ (wide : Str → Str) where
    upsert-Adds :
        (o : Option Client) (cmd : UpsertDnsRecordCmd) (x : Option DnsRecord)
        → cmd.dns_record ≡ x
        → Adds
            (λ k.
              (c : Client) × (r : DnsRecord) × (o ≡ some c)
              × (cmd.dns_record ≡ some r)
              × Patches c cmd.zone (upsert_rrset wide (fqdn cmd.zone) (zone_record r) ∷ []) k)
            (handle_upsert_dns_record wide env o cmd)
    unfolding handle_upsert_dns_record Adds raise
    upsert-Adds none cmd x e t = ([], refl, tt)
    upsert-Adds (some c) cmd none e t = rw e ([], refl, tt)
    upsert-Adds (some c) cmd (some r) e t = rw e (
        (Issues-mono (λ k p. (c, r, refl, refl, p))
            (upsert_record-Patches env c wide cmd.zone (zone_record r))).at
          t)

    handle-Permits : (d : Dispatcher) (p : Payload) → Adds (Permits wide d p) (handle wide d env p)
    unfolding handle handle_create_vhost Permits
    handle-Permits d (create_vhost cmd) = Adds-returns _ (create_vhost-InstallCall env _)
    handle-Permits d (delete_vhost cmd) = Adds-returns _ (delete_vhost-UninstallCall env cmd.domain)
    handle-Permits d (create_account cmd) =
        Adds-returns _
          (create_account-AddCall env cmd.username cmd.uid cmd.homedir cmd.disk_quota_bytes)
    handle-Permits d (delete_account cmd) =
        Adds-returns _ (delete_account-DropCall env cmd.username cmd.purge_files)
    handle-Permits d (create_database cmd) =
        Adds-when_configured d.db _ _
          (create_database-CreateStatement env cmd.db_name cmd.db_user cmd.password)
    handle-Permits d (delete_database cmd) =
        Adds-when_configured d.db _ _ (delete_database-DropStatement env cmd.db_name cmd.db_user)
    handle-Permits d (create_dns_zone cmd) =
        Adds-with_client d.dns _ (λ c. create_zone-ZoneCall env c wide cmd.zone _)
    handle-Permits d (delete_dns_zone cmd) =
        Adds-with_client d.dns _ (λ c. delete_zone-DnsCall env c cmd.zone)
    handle-Permits d (upsert_dns_record cmd) = upsert-Adds d.dns cmd cmd.dns_record refl
    handle-Permits d (delete_dns_record cmd) =
        Adds-with_client d.dns _ (λ c. delete_record-Patches env c wide cmd.zone cmd.name cmd.type)
    handle-Permits d (create_email cmd) =
        Adds-when_configured d.email _ _
          (create_account-MailboxCall env cmd.address cmd.password cmd.quota_bytes)
    handle-Permits d (delete_email cmd) =
        Adds-when_configured d.email _ _
          (delete_account-DropMailboxCall env cmd.address cmd.purge_mail)
    handle-Permits d (create_email_domain cmd) =
        Adds-when_configured d.email _ _ (create_email_domain-Issues cmd)
    handle-Permits d (delete_email_domain cmd) =
        Adds-when_configured d.email _ _ (delete_email_domain-Issues cmd)
    handle-Permits d (create_email_alias cmd) =
        Adds-when_configured d.email _ _ (create_alias-AliasCall env cmd.source cmd.destination)
    handle-Permits d (delete_email_alias cmd) =
        Adds-when_configured d.email _ _ (delete_alias-DropAliasCall env cmd.source)
    handle-Permits d (restart_service cmd) = Adds-returns _ (restart-Issues cmd)
    handle-Permits d (issue_cert cmd) = Adds-returns _ (Issues-raise _)
    handle-Permits d unset = Adds-returns _ (Issues-raise _)

-- Whatever the command and whatever the host answers, `dispatch` only adds calls to those made so
-- far, and each of them is one that this command may make: for a virtual host, the files of its own
-- domain and the test and reload of nginx; for an account, useradd, setquota or userdel with its
-- arguments for a valid user name; for a database, the agent's database manager being there, the
-- statements that make or drop it, with a name without a backtick; for DNS, requests to the agent's
-- own server with its key, with the method, zone and rrsets of the command; for mail, the manager
-- being there, the statements and directories of the operation for its address or domain, and the
-- keys and table lines of its domain; for a restart, that of a service on the list; and none for
-- other commands.
pub dispatch-Permits :
    (wide : Str → Str) (d : Dispatcher) (env : Env) (cmd : Command) (t : Trace)
    → (cs : List Call) × ((dispatch wide d env cmd t).1 ≡ cs ++ t)
      × All (Permits wide d cmd.payload) cs
unfolding dispatch Adds
dispatch-Permits wide d env cmd t = handle-Permits env wide d cmd.payload t
