-- ===== src/Agent/Email/Dkim/Restore.antt =====
-- RemoveDKIM behind SetupDKIM of dkim.go.
use gratis.Agent.Email.Dkim.Tables.{kept_text-other_domain, text_of, Lacks}
use gratis.Agent.Email.Dkim.Files.{Holds, Readable}
use gratis.Base.{◌∙◌, All, List, ◌++◌, ◌≡◌}
use gratis.Agent.Email.Dkim.Disk.{remove_dkim-Holds, SparesKeys}
use gratis.Host.Disk.{Disk}
use gratis.Host.{ok, Trace, Env}
use gratis.Text.{Free, IsName, Str}
use gratis.Agent.Email.Dkim.{key_entry, remove_dkim, signing_table, key_table, marker}

module _ {env : Env} (disk : Disk env) (domain : Str) (name : IsName domain) (free : Free 10 domain)
    (spares : SparesKeys disk domain key_table) (spares' : SparesKeys disk domain signing_table)
    (readable : Readable disk key_table) (readable' : Readable disk signing_table) where
  open disk use {entry}

  -- On such a host, with a key table that consists of lines that all end in a newline and do not contain
  -- "mail._domainkey.<domain>", and behind them of the entry of another domain whose name begins with
  -- the domain, such as that of "example.com" for "example.co", without a newline in its name or key
  -- path: a RemoveDKIM of the domain that succeeds removes the entry of the other domain.
  pub remove_dkim-other_domain :
      (t : Trace) (more k table : Str) (lines : List Str)
      → Free 10 (domain ++ more)
      → Free 10 k
      → All (Free 10) lines
      → All (Lacks (marker domain)) lines
      → Holds disk t key_table (text_of lines ++ key_entry (domain ++ more) k)
      → Holds disk t signing_table table
      → (remove_dkim env domain t).0 ≡ ok tt
      → Holds disk (remove_dkim env domain t).1 key_table (text_of lines)
  remove_dkim-other_domain t more k table lines f g h l held held' success =
      let (removed, _) =
        remove_dkim-Holds disk domain name spares spares' readable readable' t
          (text_of lines ++ key_entry (domain ++ more) k) table held held' success in
      (removed.0, removed.1 ∙ kept_text-other_domain domain more k lines f g h l)
