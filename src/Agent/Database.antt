-- ===== src/Agent/Database.antt =====
-- agent/internal/database/mariadb.go: databases and their users, over the root socket.
pub mod Statements
pub mod Tests
use gratis.Text.{bytes, is_digit, Str}
use gratis.Host.{
  sql_ping, text, sql_exec, done, sql_open, wrapf, perform, wrap, ◌>>◌, pure, errorf, raise, M, Env,
}
use gratis.Base.{
  if◌then◌else◌, ℕ, String, Bool, true, false, ◌&&◌, ◌||◌, not, List, [], ◌∷◌, ◌++◌, leb, ltb, ◌==◌,
  all, length,
}

-- [a-zA-Z0-9_]
ident_byte : ℕ → Bool
unfolding is_digit
ident_byte b = (leb b'a' b && leb b b'z') || (leb b'A' b && leb b b'Z') || is_digit b || b == b'_'

-- ^[a-zA-Z0-9_]{1,64}$
pub valid_ident : Str → Bool
unfolding ident_byte
valid_ident s = ltb 0 (length s) && leb (length s) 64 && all ident_byte s

-- A connection that is there; what it holds is the host's.
unfoldable pub new_manager : Env → Str → M (Unit {0})
new_manager env socket_path = do
  perform env (sql_open (bytes "root@unix(" ++ (socket_path ++ bytes ")/")))
  wrap (λ e. wrapf "connect to MariaDB at %s: %w" (socket_path ∷ []) e [])
      (done (perform env sql_ping))

-- The two tests at the head of both operations.
pub check_names : Str → Str → M (Unit {0})
check_names db_name user =
    if not (valid_ident db_name)
    then raise (errorf "invalid database name %q" (db_name ∷ []))
    else if not (valid_ident user)
    then raise (errorf "invalid username %q" (user ∷ []))
    else pure tt

pub create_statement : Str → Str
create_statement db_name = bytes "CREATE DATABASE IF NOT EXISTS `" ++ (db_name ++ bytes "`")

pub grant_statement : Str → Str
grant_statement db_name = bytes "GRANT ALL ON `" ++ (db_name ++ bytes "`.* TO ?@'localhost'")

pub drop_statement : Str → Str
drop_statement db_name = bytes "DROP DATABASE IF EXISTS `" ++ (db_name ++ bytes "`")

pub create_database : Env → Str → Str → Str → M (Unit {0})
unfolding check_names
create_database env db_name user password = do
  check_names db_name user
  wrap (λ e. wrapf "exec %q: %w" (create_statement db_name ∷ []) e [])
      (perform env (sql_exec (create_statement db_name) []))
  wrap (λ e. wrapf "create user %q: %w" (user ∷ []) e [])
      (perform env (
        sql_exec (bytes "CREATE USER IF NOT EXISTS ?@'localhost' IDENTIFIED BY ?")
          (text user ∷ text password ∷ [])))
  wrap (λ e. wrapf "grant privileges: %w" [] e [])
      (perform env (sql_exec (grant_statement db_name) (text user ∷ [])))
  wrap (λ e. wrapf "flush privileges: %w" [] e [])
      (done (perform env (sql_exec (bytes "FLUSH PRIVILEGES") [])))

pub delete_database : Env → Str → Str → M (Unit {0})
unfolding check_names
delete_database env db_name user = do
  check_names db_name user
  wrap (λ e. wrapf "drop database: %w" [] e []) (perform env (sql_exec (drop_statement db_name) []))
  wrap (λ e. wrapf "drop user: %w" [] e [])
      (perform env (sql_exec (bytes "DROP USER IF EXISTS ?@'localhost'") (text user ∷ [])))
  wrap (λ e. wrapf "flush privileges: %w" [] e [])
      (done (perform env (sql_exec (bytes "FLUSH PRIVILEGES") [])))
