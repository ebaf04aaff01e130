-- ===== src/Agent/Email.antt =====
-- agent/internal/email/manager.go: virtual mailboxes over the mail database and the mail
-- directories.
pub mod Calls
pub mod Dkim
pub mod Address
pub mod Mailboxes
pub mod Tests
use gratis.Text.{str_eq, join_path, trim_space, cut, bytes, rooted, Str}
use gratis.Host.{
  unless_missing, raise, is_not_exist, err, ok, sql_query, number, text, run, mkdir_all, sql_exec,
  remove_all, errorf, perform, is_no_rows, done, wrapf, attempt, pure, wrap, ◌>>=◌, ◌>>◌, M, Error,
  Env, Result,
}
use gratis.Base.{Option, ◌||◌, some, none, [], if◌then◌else◌, ◌∷◌, ℕ, Bool, List}

abbrev pub mail_root : Str
mail_root = rooted (bytes "var" ∷ bytes "mail" ∷ bytes "vhosts" ∷ [])

-- The statements of SetupSchema.
abbrev pub schema : List Str
schema =
    bytes "CREATE DATABASE IF NOT EXISTS mail"
    ∷ bytes
        "CREATE TABLE IF NOT EXISTS mail.virtual_domains (\n\t\t\tid   INT NOT NULL AUTO_INCREMENT,\n\t\t\tname VARCHAR(255) NOT NULL UNIQUE,\n\t\t\tPRIMARY KEY (id)\n\t\t)"
    ∷ bytes
        "CREATE TABLE IF NOT EXISTS mail.virtual_users (\n\t\t\tid        INT NOT NULL AUTO_INCREMENT,\n\t\t\tdomain_id INT NOT NULL,\n\t\t\temail     VARCHAR(255) NOT NULL UNIQUE,\n\t\t\tpassword  VARCHAR(255) NOT NULL,\n\t\t\tquota     BIGINT NOT NULL DEFAULT 0,\n\t\t\tPRIMARY KEY (id),\n\t\t\tFOREIGN KEY (domain_id) REFERENCES mail.virtual_domains(id) ON DELETE CASCADE\n\t\t)"
    ∷ bytes
        "CREATE TABLE IF NOT EXISTS mail.virtual_aliases (\n\t\t\tid          INT NOT NULL AUTO_INCREMENT,\n\t\t\tdomain_id   INT NOT NULL,\n\t\t\tsource      VARCHAR(255) NOT NULL,\n\t\t\tdestination VARCHAR(255) NOT NULL,\n\t\t\tPRIMARY KEY (id),\n\t\t\tFOREIGN KEY (domain_id) REFERENCES mail.virtual_domains(id) ON DELETE CASCADE\n\t\t)"
    ∷ []

exec_all : Env → List Str → M (Unit {0})
exec_all env [] = pure tt
exec_all env (s ∷ ss) = do
  wrap (λ e. wrapf "setup schema: %w" [] e []) (perform env (sql_exec s []))
  exec_all env ss

pub setup_schema : Env → M (Unit {0})
unfolding exec_all
setup_schema env = exec_all env schema

-- os.RemoveAll, for which a missing file is no error.
pub remove_tree : Env → Str → (Error → Error) → M (Unit {0})
remove_tree env path f = unless_missing f (done (perform env (remove_all path)))

pub add_domain : Env → Str → M (Unit {0})
add_domain env domain = do
  wrap (λ e. wrapf "add domain %s: %w" (domain ∷ []) e [])
      (perform env (
        sql_exec (bytes "INSERT IGNORE INTO mail.virtual_domains (name) VALUES (?)")
          (text domain ∷ [])))
  done (perform env (mkdir_all (join_path (mail_root ∷ domain ∷ [])) 0o750))

pub remove_domain : Env → Str → Bool → M (Unit {0})
unfolding remove_tree
remove_domain env domain purge_mail = do
  wrap (λ e. wrapf "remove domain %s: %w" (domain ∷ []) e [])
      (perform env
        (sql_exec (bytes "DELETE FROM mail.virtual_domains WHERE name = ?") (text domain ∷ [])))
  if purge_mail
      then remove_tree env (join_path (mail_root ∷ domain ∷ []))
          (λ e. wrapf "purge mail for %s: %w" (domain ∷ []) e [])
      else pure tt

-- The parts of an address: the first "@" parts them, and neither may be empty.
pub check_parts : Str → Option (Str × Str) → Result (Str × Str)
check_parts address none = err (errorf "invalid email address: %q" (address ∷ []))
check_parts address (some (local, domain)) =
    if str_eq local [] || str_eq domain []
    then err (errorf "invalid email address: %q" (address ∷ []))
    else ok (local, domain)

pub split_address : Str → Result (Str × Str)
unfolding check_parts
split_address address = check_parts address (cut b'@' address)

-- A pure result in code that makes calls.
pub lift : {A : Type 0} → Result A → M A
lift r t = (r, t)

pub domain_id : Env → Str → M ℕ
domain_id env domain = do
  r ←
      wrap (λ e. if is_no_rows e then errorf "not found" [] else e)
        (perform env (
          sql_query (bytes "SELECT id FROM mail.virtual_domains WHERE name = ?")
            (text domain ∷ [])))
  pure r.number

pub hash_password : Env → Str → M Str
hash_password env password = do
  r ←
      wrap (λ e. wrapf "hash password (is dovecot installed?): %w" [] e [])
        (perform env (
          run (bytes "doveadm")
            (bytes "pw" ∷ bytes "-s" ∷ bytes "SHA512-CRYPT" ∷ bytes "-p" ∷ password ∷ [])))
  pure (trim_space r.text)

-- The directories of a mailbox.
pub make_maildir : Env → Str → List Str → M (Unit {0})
make_maildir env maildir [] = pure tt
make_maildir env maildir (sub ∷ subs) = do
  wrap (λ e. wrapf "create maildir: %w" [] e [])
      (perform env (mkdir_all (join_path (maildir ∷ sub ∷ [])) 0o700))
  make_maildir env maildir subs

pub create_account : Env → Str → Str → ℕ → M (Unit {0})
unfolding lift domain_id hash_password make_maildir
create_account env address password quota_bytes = do
  (local, domain) ← lift (split_address address)
  id ←
      wrap (λ e. wrapf "domain %s not found — add it first: %w" (domain ∷ []) e [])
        (domain_id env domain)
  hash ← hash_password env password
  wrap (λ e. wrapf "create account %s: %w" (address ∷ []) e [])
      (perform env (
        sql_exec
          (bytes
            "INSERT INTO mail.virtual_users (domain_id, email, password, quota) VALUES (?, ?, ?, ?)\n\t\t ON DUPLICATE KEY UPDATE password = VALUES(password), quota = VALUES(quota)")
          (number id ∷ text address ∷ text hash ∷ number quota_bytes ∷ [])))
  make_maildir env (join_path (mail_root ∷ domain ∷ local ∷ []))
      ([] ∷ bytes "cur" ∷ bytes "new" ∷ bytes "tmp" ∷ [])

pub delete_account : Env → Str → Bool → M (Unit {0})
unfolding lift remove_tree
delete_account env address purge_mail = do
  (local, domain) ← lift (split_address address)
  wrap (λ e. wrapf "delete account %s: %w" (address ∷ []) e [])
      (perform env
        (sql_exec (bytes "DELETE FROM mail.virtual_users WHERE email = ?") (text address ∷ [])))
  if purge_mail
      then remove_tree env (join_path (mail_root ∷ domain ∷ local ∷ []))
          (λ e. wrapf "purge maildir: %w" [] e [])
      else pure tt

pub create_alias : Env → Str → Str → M (Unit {0})
unfolding lift domain_id
create_alias env source destination = do
  (_, domain) ← lift (split_address source)
  id ← wrap (λ e. wrapf "domain %s not found: %w" (domain ∷ []) e []) (domain_id env domain)
  wrap (λ e. wrapf "create alias %s -> %s: %w" (source ∷ destination ∷ []) e [])
      (done (
        perform env (
          sql_exec
            (bytes
              "INSERT IGNORE INTO mail.virtual_aliases (domain_id, source, destination) VALUES (?, ?, ?)")
            (number id ∷ text source ∷ text destination ∷ []))))

pub delete_alias : Env → Str → M (Unit {0})
delete_alias env source =
    wrap (λ e. wrapf "delete alias %s: %w" (source ∷ []) e [])
      (done (
        perform env (
          sql_exec (bytes "DELETE FROM mail.virtual_aliases WHERE source = ?") (text source ∷ []))))
