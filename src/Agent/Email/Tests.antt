-- ===== src/Agent/Email/Tests.antt =====
-- Addresses and mailboxes of manager.go.
use gratis.Agent.Email.Address.{split_address-ok_iff}
use gratis.Agent.Email.Mailboxes.{delete_account-removes_root, dots_at}
use gratis.Host.{text, sql_exec, remove_all, ok, Env}
use gratis.Agent.Email.{mail_root, delete_account, split_address}
use gratis.Text.{Free, IsName-of_test, IsName, is_name, bytes}
use gratis.Base.{◌≢◌, refl, ◌↔◌, ◌++◌, true, ◌≡◌, none, ◌∷◌, []}

abbrev quiet : Env
quiet t c = record { text = []; number = 0; failure = none }

split_address-ok_iff_example :
    (split_address (bytes "bob@a.org") ≡ ok (bytes "bob", bytes "a.org")) ↔ (
      (bytes "bob@a.org" ≡ bytes "bob" ++ b'@' ∷ bytes "a.org")
      × Free b'@' (bytes "bob")
      × (bytes "bob" ≢ [])
      × (bytes "a.org" ≢ []))
split_address-ok_iff_example =
    split_address-ok_iff (bytes "bob@a.org") (bytes "bob") (bytes "a.org")

domain-IsName : IsName (bytes "a.org")
unfolding bytes is_name
domain-IsName = IsName-of_test (bytes "a.org") refl

delete_account-removes_root_example :
    (delete_account quiet (dots_at (bytes "a.org")) true []).1
    ≡ remove_all mail_root
      ∷ sql_exec
          (bytes "DELETE FROM mail.virtual_users WHERE email = ?")
          (text (dots_at (bytes "a.org")) ∷ [])
      ∷ []
delete_account-removes_root_example =
    delete_account-removes_root quiet (bytes "a.org") [] domain-IsName refl
