-- ===== src/Agent/Email/Mailboxes.antt =====
-- What manager.go removes for an address whose local part is no name of a directory.
use gratis.Agent.Email.Address.{split_address-ok_iff}
use gratis.Host.{remove_all, text, sql_exec, Trace, Env, ok, ◌>>=◌}
use gratis.Agent.Email.{mail_root, split_address, remove_tree, lift, delete_account}
use gratis.Text.{
  join_path-dots, join_path-below, IsName-of_test, join_path, is_name, IsName, bytes, Str,
}
use gratis.Base.{true, none, arith, ◌∙◌, refl, ◌≡◌, All, ◌∷◌, []}

root_names : All IsName (bytes "var" ∷ bytes "mail" ∷ bytes "vhosts" ∷ [])
unfolding bytes is_name
root_names = (
  IsName-of_test (bytes "var") refl,
  (IsName-of_test (bytes "mail") refl, (IsName-of_test (bytes "vhosts") refl, tt)),
)

-- The local part "..".
abbrev pub dots_at : Str → Str
dots_at domain = 46 ∷ 46 ∷ b'@' ∷ domain

dots_at-path :
    (domain : Str)
    → IsName domain
    → join_path (mail_root ∷ domain ∷ (46 ∷ 46 ∷ []) ∷ []) ≡ mail_root
dots_at-path domain n =
    join_path-below (bytes "var") (bytes "mail" ∷ bytes "vhosts" ∷ []) domain (46 ∷ 46 ∷ [])
      root_names n
    ∙ join_path-dots (bytes "var") (bytes "mail" ∷ bytes "vhosts" ∷ []) domain root_names n

split-dots_at :
    (domain : Str) → IsName domain → split_address (dots_at domain) ≡ ok (46 ∷ 46 ∷ [], domain)
split-dots_at domain n =
    (split_address-ok_iff (dots_at domain) (46 ∷ 46 ∷ []) domain).1
      (refl, omega arith, (λ e. cc e), n.not_empty)

-- DeleteAccount of "..@domain" with its mail, for a domain that is the name of a directory, removes
-- /var/mail/vhosts, the mail of every domain, once its statement succeeds.
pub delete_account-removes_root :
    (env : Env) (domain : Str) (t : Trace)
    → IsName domain
    → (env t (
        sql_exec
          (bytes "DELETE FROM mail.virtual_users WHERE email = ?")
          (text (dots_at domain) ∷ []))).failure
      ≡ none
    → (delete_account env (dots_at domain) true t).1
      ≡ remove_all mail_root
        ∷ sql_exec
            (bytes "DELETE FROM mail.virtual_users WHERE email = ?")
            (text (dots_at domain) ∷ [])
        ∷ t
unfolding delete_account lift remove_tree ◌>>=◌
delete_account-removes_root env domain t n done_sql =
    rw (split-dots_at domain n, done_sql, dots_at-path domain n) (ground arith)
