-- ===== src/Agent/Accounts/Tests.antt =====
-- Accounts of accounts.go.
use gratis.Agent.Accounts.Quota.{quota_args-no_limit_iff}
use gratis.Text.{decimal, bytes}
use gratis.Host.{run, ◌>>=◌, Env}
use gratis.Agent.Accounts.{
  create_account, set_quota, useradd_args, hard_kb, later_byte, first_byte, valid_username, soft_kb,
  quota_args,
}
use gratis.Base.{refl, arith, ◌<◌, ◌↔◌, ◌≡◌, none, ◌∷◌, []}

abbrev quiet : Env
quiet t c = record { text = []; number = 0; failure = none }

quota_args-no_limit_iff_example :
    (quota_args (bytes "bob") 1000 ≡ quota_args (bytes "bob") 0) ↔ (1000 < 1024)
quota_args-no_limit_iff_example = quota_args-no_limit_iff (bytes "bob") 1000 (omega arith)

-- An account is made with a quota, and no program runs for a name that is not valid.
account_tests :
    ((create_account quiet (bytes "bob") 0 [] 2048 []).1
      ≡ run (bytes "setquota") (
          bytes "-u" ∷ bytes "bob" ∷ bytes "2" ∷ bytes "2" ∷ bytes "0" ∷ bytes "0" ∷ bytes "/" ∷ [])
        ∷ run (bytes "useradd") (bytes "-m" ∷ bytes "-s" ∷ bytes "/bin/bash" ∷ bytes "bob" ∷ [])
        ∷ [])
    × ((create_account quiet (bytes "-rf") 0 [] 2048 []).1 ≡ [])
unfolding create_account valid_username first_byte later_byte quota_args soft_kb hard_kb
    useradd_args set_quota decimal bytes gratis.Text.str_eq ◌>>=◌
account_tests = (refl, refl)
