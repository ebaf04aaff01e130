-- ===== src/Agent/Email/Calls.antt =====
-- The calls that email/manager.go makes.
use gratis.Text.{join_path, bytes, Str}
use gratis.Host.Rules.{
  Issues-perform, Issues-wrap, Issues-pure, Issues-mono, Issues-bind, Issues, issues_rules,
}
use gratis.Agent.Email.{
  split_address, mail_root, remove_tree, create_alias, make_maildir, remove_domain, delete_account,
  delete_alias, hash_password, domain_id, add_domain, create_account, lift,
}
use gratis.Host.{
  err, M, ok, raise, ◌>>=◌, remove_all, mkdir_all, number, text, run, sql_query, sql_exec, Result,
  Env, Call,
}
use gratis.Base.{true, ◌≡◌, refl, [], List, ℕ, Bool, ◌∷◌}

-- What AddDomain may do: the domain is inserted, and its directory made.
pub data AddDomainCall (domain : Str) : Call → Type 0 where
  inserts_domain : AddDomainCall domain (
      sql_exec
        (bytes "INSERT IGNORE INTO mail.virtual_domains (name) VALUES (?)")
        (text domain ∷ []))
  makes_root : AddDomainCall domain (mkdir_all (join_path (mail_root ∷ domain ∷ [])) 0o750)

-- What RemoveDomain may do: the domain is deleted, and its directory purged on demand.
pub data RemoveDomainCall (domain : Str) (purge : Bool) : Call → Type 0 where
  deletes_domain :
      RemoveDomainCall domain purge
        (sql_exec (bytes "DELETE FROM mail.virtual_domains WHERE name = ?") (text domain ∷ []))
  purges_domain :
      purge ≡ true
      → RemoveDomainCall domain purge (remove_all (join_path (mail_root ∷ domain ∷ [])))

-- A look-up of the id of a domain.
pub data FindsDomain (domain : Str) : Call → Type 0 where
  finds :
      FindsDomain domain
        (sql_query (bytes "SELECT id FROM mail.virtual_domains WHERE name = ?") (text domain ∷ []))

-- What CreateAccount may do: the domain is looked up, the password hashed, the mailbox inserted with
-- its address and quota, and its directories made.
pub data MailboxCall (address password : Str) (quota : ℕ) : Call → Type 0 where
  finds_for_mailbox :
      (local domain : Str) (k : Call)
      → split_address address ≡ ok (local, domain)
      → FindsDomain domain k
      → MailboxCall address password quota k
  hashes : MailboxCall address password quota (
      run
        (bytes "doveadm")
        (bytes "pw" ∷ bytes "-s" ∷ bytes "SHA512-CRYPT" ∷ bytes "-p" ∷ password ∷ []))
  inserts_mailbox :
      (id : ℕ) (hash : Str)
      → MailboxCall address password quota (
          sql_exec
            (bytes
              "INSERT INTO mail.virtual_users (domain_id, email, password, quota) VALUES (?, ?, ?, ?)\n\t\t ON DUPLICATE KEY UPDATE password = VALUES(password), quota = VALUES(quota)")
            (number id ∷ text address ∷ text hash ∷ number quota ∷ []))
  makes_dir :
      (local domain sub : Str)
      → split_address address ≡ ok (local, domain)
      → MailboxCall address password quota
          (mkdir_all (join_path (join_path (mail_root ∷ domain ∷ local ∷ []) ∷ sub ∷ [])) 0o700)

-- What DeleteAccount may do: the mailbox is deleted, and its directory purged on demand.
pub data DropMailboxCall (address : Str) (purge : Bool) : Call → Type 0 where
  deletes_mailbox :
      DropMailboxCall address purge
        (sql_exec (bytes "DELETE FROM mail.virtual_users WHERE email = ?") (text address ∷ []))
  purges_mailbox :
      (local domain : Str)
      → split_address address ≡ ok (local, domain)
      → purge ≡ true
      → DropMailboxCall address purge (remove_all (join_path (mail_root ∷ domain ∷ local ∷ [])))

-- What CreateAlias may do: the domain is looked up, and the alias inserted.
pub data AliasCall (source destination : Str) : Call → Type 0 where
  finds_for_alias :
      (local domain : Str) (k : Call)
      → split_address source ≡ ok (local, domain)
      → FindsDomain domain k
      → AliasCall source destination k
  inserts_alias :
      (id : ℕ)
      → AliasCall source destination (
          sql_exec
            (bytes
              "INSERT IGNORE INTO mail.virtual_aliases (domain_id, source, destination) VALUES (?, ?, ?)")
            (number id ∷ text source ∷ text destination ∷ []))

-- What DeleteAlias does: the alias is deleted.
pub data DropAliasCall (source : Str) : Call → Type 0 where
  deletes_alias :
      DropAliasCall source
        (sql_exec (bytes "DELETE FROM mail.virtual_aliases WHERE source = ?") (text source ∷ []))

-- What follows a pure result may use it.
lift-Issues :
    {P : Call → Type 0} {A B : Type 0} (r : Result A) (f : A → M B)
    → ((a : A) → r ≡ ok a → Issues P (f a))
    → Issues P (lift r >>= f)
unfolding lift ◌>>=◌ raise
lift-Issues (ok a) f i = record { at = λ t. (i a refl).at t }
lift-Issues (err e) f i = record { at = λ t. ([], refl, tt) }

ruleset mail_rules = (
  inserts_domain, makes_root, deletes_domain, purges_domain, hashes, inserts_mailbox, makes_dir,
  deletes_mailbox, purges_mailbox, inserts_alias, deletes_alias, issues_rules,
)

module _ (env : Env) where
  pub add_domain-AddDomainCall :
      (domain : Str) → Issues (AddDomainCall domain) (add_domain env domain)
  unfolding add_domain
  add_domain-AddDomainCall domain = search mail_rules depth 16

  pub remove_domain-RemoveDomainCall :
      (domain : Str) (purge : Bool)
      → Issues (RemoveDomainCall domain purge) (remove_domain env domain purge)
  unfolding remove_domain remove_tree
  remove_domain-RemoveDomainCall domain purge = search mail_rules depth 16

  domain_id-FindsDomain : (domain : Str) → Issues (FindsDomain domain) (domain_id env domain)
  unfolding domain_id
  domain_id-FindsDomain domain = search (finds, issues_rules) depth 12

  module _ (address password : Str) (quota : ℕ) (local domain : Str)
      (parted : split_address address ≡ ok (local, domain)) where
    make_maildir-MailboxCall :
        (subs : List Str)
        → Issues
            (MailboxCall address password quota)
            (make_maildir env (join_path (mail_root ∷ domain ∷ local ∷ [])) subs)
    unfolding make_maildir
    make_maildir-MailboxCall [] = Issues-pure tt
    make_maildir-MailboxCall (sub ∷ subs) =
        Issues-bind _ _ (Issues-wrap _ _ (Issues-perform env _ (makes_dir local domain sub parted)))
          (λ _. make_maildir-MailboxCall subs)

    mailbox_domain : Issues (MailboxCall address password quota) (domain_id env domain)
    mailbox_domain =
        Issues-mono (λ k p. finds_for_mailbox local domain k parted p)
          (domain_id-FindsDomain domain)

  hash_password-MailboxCall :
      (address password : Str) (quota : ℕ)
      → Issues (MailboxCall address password quota) (hash_password env password)
  unfolding hash_password
  hash_password-MailboxCall address password quota = search mail_rules depth 12

  pub create_account-MailboxCall :
      (address password : Str) (quota : ℕ)
      → Issues (MailboxCall address password quota) (create_account env address password quota)
  unfolding create_account
  create_account-MailboxCall address password quota = lift-Issues _ _ λ (local, domain) parted.
      Issues-bind _ _ (Issues-wrap _ _ (mailbox_domain address password quota local domain parted))
        λ id. Issues-bind _ _ (hash_password-MailboxCall address password quota) λ hash.
          Issues-bind _ _ (Issues-wrap _ _ (Issues-perform env _ (inserts_mailbox id hash))) (λ _.
            make_maildir-MailboxCall address password quota local domain parted
              ([] ∷ bytes "cur" ∷ bytes "new" ∷ bytes "tmp" ∷ []))

  pub delete_account-DropMailboxCall :
      (address : Str) (purge : Bool)
      → Issues (DropMailboxCall address purge) (delete_account env address purge)
  unfolding delete_account remove_tree
  delete_account-DropMailboxCall address purge =
      lift-Issues _ _ λ (local, domain) parted. search (mail_rules, parted) depth 20

  pub create_alias-AliasCall :
      (source destination : Str)
      → Issues (AliasCall source destination) (create_alias env source destination)
  unfolding create_alias
  create_alias-AliasCall source destination = lift-Issues _ _ λ (local, domain) parted.
      Issues-bind _ _
        (Issues-wrap _ _ (
          Issues-mono (λ k p. finds_for_alias local domain k parted p)
            (domain_id-FindsDomain domain)))
        λ id. search (inserts_alias, issues_rules) depth 12

  pub delete_alias-DropAliasCall :
      (source : Str) → Issues (DropAliasCall source) (delete_alias env source)
  unfolding delete_alias
  delete_alias-DropAliasCall source = search mail_rules depth 16
