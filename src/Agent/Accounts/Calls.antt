-- ===== src/Agent/Accounts/Calls.antt =====
-- Which programs accounts.go runs, and when an account is made.
use gratis.Base.{eq-true_of_not-eq-false, ℕ, ◌≡◌, ◌↔◌, Bool, true, none, arith}
use gratis.Text.{Str, bytes}
use gratis.Host.{ok, Call, run, Trace, Env, ◌>>=◌}
use gratis.Host.Rules.{Issues, issues_rules}
use gratis.Agent.Accounts.{
  valid_username, quota_args, useradd_args, userdel_args, set_quota, create_account, delete_account,
}

-- The runs of useradd and setquota that make this account, whose user name is a valid one.
pub data AddCall (username : Str) (uid : ℕ) (homedir : Str) (quota : ℕ) : Call → Type 0 where
  adds :
      valid_username username ≡ true
      → AddCall username uid homedir quota
          (run (bytes "useradd") (useradd_args username uid homedir))
  limits :
      valid_username username ≡ true
      → AddCall username uid homedir quota (run (bytes "setquota") (quota_args username quota))

-- The run of userdel for this account, whose user name is a valid one.
pub data DropCall (username : Str) (purge : Bool) : Call → Type 0 where
  deletes :
      valid_username username ≡ true
      → DropCall username purge (run (bytes "userdel") (userdel_args username purge))

-- Whatever the host answers, each call that `create_account` makes is a run of useradd or setquota
-- with its arguments, and the user name is a valid one.
pub create_account-AddCall :
    (env : Env) (username : Str) (uid : ℕ) (homedir : Str) (quota : ℕ)
    → Issues (AddCall username uid homedir quota) (create_account env username uid homedir quota)
unfolding create_account set_quota
create_account-AddCall env username uid homedir quota =
    search (issues_rules, adds, limits, eq-true_of_not-eq-false) depth 12

-- Whatever the host answers, the call that `delete_account` makes, if any, is a run of userdel for its
-- user name, and that name is a valid one.
pub delete_account-DropCall :
    (env : Env) (username : Str) (purge : Bool)
    → Issues (DropCall username purge) (delete_account env username purge)
unfolding delete_account
delete_account-DropCall env username purge = search (issues_rules, deletes, eq-true_of_not-eq-false)

-- An account is reported as made exactly when the user name is valid and useradd succeeded,
-- whatever becomes of the quota.
create_account-ok_iff :
    (env : Env) (username : Str) (uid : ℕ) (homedir : Str) (quota : ℕ) (t : Trace)
    → ((create_account env username uid homedir quota t).0 ≡ ok tt) ↔ (
        (valid_username username ≡ true)
        × ((env t (run (bytes "useradd") (useradd_args username uid homedir))).failure ≡ none))
unfolding create_account set_quota ◌>>=◌
create_account-ok_iff env username uid homedir quota t = (λ h. ground arith, λ h. ground arith)
