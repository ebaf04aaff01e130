-- ===== src/Agent/Accounts.antt =====
-- agent/internal/system/accounts.go: Linux users for hosting accounts.
pub mod Calls
pub mod Quota
pub mod Tests
use gratis.Base.{
  ℕ, ◌+◌, ◌/◌, ◌%◌, ◌^◌, Bool, true, false, ◌&&◌, ◌||◌, not, List, [], ◌∷◌, ◌++◌, ltb, leb, ◌==◌,
  if◌then◌else◌, all, length,
}
use gratis.Text.{Str, bytes, decimal, is_digit, str_eq}
use gratis.Host.{Error, errorf, wrapf, Env, M, pure, raise, attempt, run_with_output, ◌>>=◌, ◌>>◌}

-- [a-z_]
first_byte : ℕ → Bool
first_byte b = (leb b'a' b && leb b b'z') || b == b'_'

-- [a-z0-9_-]
later_byte : ℕ → Bool
unfolding is_digit
later_byte b = (leb b'a' b && leb b b'z') || is_digit b || b == b'_' || b == b'-'

-- ^[a-z_][a-z0-9_-]{0,31}$
pub valid_username : Str → Bool
unfolding first_byte later_byte
valid_username [] = false
valid_username (b ∷ s) = first_byte b && all later_byte s && leb (length s) 31

-- The arguments of setquota's soft and hard block limits, in KB.
pub soft_kb : ℕ → ℕ
soft_kb quota_bytes = quota_bytes / 1024

pub hard_kb : ℕ → ℕ
unfolding soft_kb
hard_kb quota_bytes = (soft_kb quota_bytes + soft_kb quota_bytes / 10) % 2 ^ 64

pub quota_args : Str → ℕ → List Str
unfolding soft_kb hard_kb
quota_args username quota_bytes =
    bytes "-u"
    ∷ username
    ∷ decimal (soft_kb quota_bytes)
    ∷ decimal (hard_kb quota_bytes)
    ∷ bytes "0"
    ∷ bytes "0"
    ∷ bytes "/"
    ∷ []

pub set_quota : Env → Str → ℕ → M (Unit {0})
set_quota env username quota_bytes =
    run_with_output env "%w: %s" [] (bytes "setquota") (quota_args username quota_bytes)

pub useradd_args : Str → ℕ → Str → List Str
useradd_args username uid homedir =
    (bytes "-m" ∷ bytes "-s" ∷ bytes "/bin/bash" ∷ [])
    ++ ((if str_eq homedir [] then [] else bytes "-d" ∷ homedir ∷ [])
        ++ ((if ltb 0 uid then bytes "-u" ∷ decimal uid ∷ [] else []) ++ username ∷ []))

pub create_account : Env → Str → ℕ → Str → ℕ → M (Unit {0})
create_account env username uid homedir quota_bytes =
    if not (valid_username username)
    then raise (errorf "invalid username %q" (username ∷ []))
    else do
      run_with_output env "useradd: %w: %s" [] (bytes "useradd") (useradd_args username uid homedir)
      -- a failure of setquota is printed, and the account stands
      if ltb 0 quota_bytes
          then (do _ ← attempt (set_quota env username quota_bytes); pure tt)
          else pure tt

pub userdel_args : Str → Bool → List Str
userdel_args username purge_files = (if purge_files then bytes "-r" ∷ [] else []) ++ username ∷ []

pub delete_account : Env → Str → Bool → M (Unit {0})
delete_account env username purge_files =
    if not (valid_username username)
    then raise (errorf "invalid username %q" (username ∷ []))
    else run_with_output env "userdel: %w: %s" [] (bytes "userdel")
        (userdel_args username purge_files)
