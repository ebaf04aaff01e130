-- ===== src/Agent/Database/Statements.antt =====
-- The SQL that mariadb.go sends, and the names that it lets through.
use gratis.Host.Rules.{issues_rules, Issues}
use gratis.Host.{text, ◌>>◌, ◌>>=◌, sql_exec, Env, M, Call}
use gratis.Text.{bytes, Free, Str}
use gratis.Base.{
  ltb, ◌&&◌, leb, refl, inr, inl, ◌∷◌, [], Bool-cases, ◌++◌, and-eq-true, arith, All, length, ◌≢◌,
  All-map_pred, ◌↔◌, true, ◌⊎◌, all, ◌≤◌, ◌≡◌, ℕ,
}
use gratis.Agent.Database.{
  ident_byte, grant_statement, check_names, create_statement, drop_statement, delete_database,
  create_database, valid_ident,
}

-- A letter, a digit or `_`.
abbrev pub IsIdentByte : ℕ → Type 0
IsIdentByte b =
    ((b'a' ≤ b) × (b ≤ b'z'))
    ⊎ (((b'A' ≤ b) × (b ≤ b'Z')) ⊎ (((b'0' ≤ b) × (b ≤ b'9')) ⊎ (b ≡ b'_')))

ident_byte_iff : (b : ℕ) → (ident_byte b ≡ true) ↔ IsIdentByte b
unfolding ident_byte
ident_byte_iff b = (λ h. ground arith, λ h. ground arith)

all_iff : (s : Str) → (all ident_byte s ≡ true) ↔ All IsIdentByte s
all_iff [] = (λ h. tt, λ h. ground arith)
all_iff (b ∷ s) = (
  λ h. let (here, later) = and-eq-true _ _ h in ((ident_byte_iff b).0 here, (all_iff s).0 later),
  λ h. rw ((ident_byte_iff b).1 h.0) ((all_iff s).1 h.1),
)

-- A name is let through exactly when it is 1 to 64 letters, digits and `_`.
valid_ident_iff :
    (s : Str) → (valid_ident s ≡ true) ↔ ((1 ≤ length s) × (length s ≤ 64) × All IsIdentByte s)
unfolding valid_ident
valid_ident_iff s = (
  λ h.
      let (sized, bytes_ok) =
        and-eq-true (ltb 0 (length s) && leb (length s) 64) (all ident_byte s) h in
      (ground arith, ground arith, (all_iff s).0 bytes_ok),
  λ h. ground (arith, (all_iff s).1 h.2),
)

-- No backtick: what is spliced between two of them stays there.
valid_ident-Free : (s : Str) → valid_ident s ≡ true → Free 96 s
valid_ident-Free s h =
    All-map_pred IsIdentByte (λ b. b ≢ 96) (λ b k. ground arith) s ((valid_ident_iff s).0 h).2

-- The statements that make this database and its user. The database's name stands between backticks
-- and holds none; the user and the password are bound, never spliced.
pub data CreateStatement (db_name user password : Str) : Call → Type 0 where
  creates :
      Free 96 db_name
      → CreateStatement db_name user password
          (sql_exec (bytes "CREATE DATABASE IF NOT EXISTS `" ++ (db_name ++ bytes "`")) [])
  adds_user : CreateStatement db_name user password (
      sql_exec
        (bytes "CREATE USER IF NOT EXISTS ?@'localhost' IDENTIFIED BY ?")
        (text user ∷ text password ∷ []))
  grants :
      Free 96 db_name
      → CreateStatement db_name user password (
          sql_exec
            (bytes "GRANT ALL ON `" ++ (db_name ++ bytes "`.* TO ?@'localhost'"))
            (text user ∷ []))
  flushes : CreateStatement db_name user password (sql_exec (bytes "FLUSH PRIVILEGES") [])

-- The statements that drop them.
pub data DropStatement (db_name user : Str) : Call → Type 0 where
  drops :
      Free 96 db_name
      → DropStatement db_name user
          (sql_exec (bytes "DROP DATABASE IF EXISTS `" ++ (db_name ++ bytes "`")) [])
  drops_user :
      DropStatement db_name user
        (sql_exec (bytes "DROP USER IF EXISTS ?@'localhost'") (text user ∷ []))
  flushes_after : DropStatement db_name user (sql_exec (bytes "FLUSH PRIVILEGES") [])

abbrev NamesValid : Str → Str → Type 0
NamesValid db_name user = (valid_ident db_name ≡ true) × (valid_ident user ≡ true)

-- Behind the tests both names are valid.
module _ {P : Call → Type 0} (db_name user : Str) (m : M (Unit {0})) where
  Issues-check_names :
      (NamesValid db_name user → Issues P m) → Issues P (check_names db_name user >> m)
  unfolding check_names ◌>>=◌
  Issues-check_names i = elim (Bool-cases (valid_ident db_name)) [
    | inl v ↦ elim (Bool-cases (valid_ident user)) [
      | inl w ↦ rw (v, w) (record { at = λ t. (i (v, w)).at t })
      | inr w ↦ rw (v, w) (record { at = λ t. ([], refl, tt) })
    ]
    | inr v ↦ rw v (record { at = λ t. ([], refl, tt) })
  ]

-- Whatever the names and whatever the database answers, the calls that `create_database` makes are
-- the statements of `CreateStatement` for them.
pub create_database-CreateStatement :
    (env : Env) (db_name user password : Str)
    → Issues (CreateStatement db_name user password) (create_database env db_name user password)
unfolding create_database create_statement grant_statement
create_database-CreateStatement env db_name user password = Issues-check_names db_name user _ λ v.
    let h = valid_ident-Free db_name v.0 in
    search (issues_rules, creates, grants, adds_user, flushes) depth 14

-- Whatever the names and whatever the database answers, the calls that `delete_database` makes are
-- the statements of `DropStatement` for them.
pub delete_database-DropStatement :
    (env : Env) (db_name user : Str)
    → Issues (DropStatement db_name user) (delete_database env db_name user)
unfolding delete_database drop_statement
delete_database-DropStatement env db_name user = Issues-check_names db_name user _ λ v.
    let h = valid_ident-Free db_name v.0 in
    search (issues_rules, drops, drops_user, flushes_after) depth 14
