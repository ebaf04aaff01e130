-- ===== src/Agent/Email/Dkim/Tests.antt =====
-- The tables of dkim.go.
use gratis.Agent.Email.Dkim.Pem.{IsKeyLine, setup_dkim-returns, pem_text}
use gratis.Agent.Email.Dkim.Restore.{remove_dkim-other_domain}
use gratis.Host.{write_file, Trace, ◌>>=◌}
use gratis.Agent.Email.Dkim.Steps.{opendkim_reload, extracts, generates}
use gratis.Agent.Email.Dkim.Files.{Holds, Readable}
use gratis.Agent.Email.Dkim.Disk.{setup_dkim_twice, SparesKeys}
use gratis.Host.{Reply, ok, Env}
use gratis.Base.{All, subst, sym, ◌∙◌, none, some, List, Option, if◌then◌else◌}
use gratis.Host.Disk.Machine.{machine-reads, machine-entry, machine-Disk, entry_at, machine}
use gratis.Host.Disk.{IsPlain, content, Entry, Disk, file}
use gratis.Agent.Email.Dkim.Tables.{text_of}
use gratis.Agent.Email.Dkim.{
  signing_table, key_table, key_dir, public_key, private_key, strip_pem, remove_keys, rewrite_lines,
  remove_lines, append_unique, remove_dkim, setup_dkim, key_entry,
}
use gratis.Text.{
  trim_space, join, join_path, IsName-of_test, IsName, str_eq, Str, is_name, has_prefix, contains,
  bytes,
}
use gratis.Base.{refl, arith, ◌≡◌, ◌++◌, ◌∷◌, []}

-- A machine with the public key of a domain and no tables, whose programs do nothing and succeed.
abbrev pem : Str
pem = pem_text (bytes "MIIB" ∷ [])

abbrev keyed : Str → Option Entry
keyed q = if str_eq q (bytes "/etc/opendkim/keys/a.org/mail.txt") then some (file pem) else none

abbrev willing : Str → List Str → Reply
willing name args = record { text = []; number = 0; failure = none }

abbrev host : Env
host = machine keyed willing

abbrev disk : Disk host
disk = machine-Disk keyed willing

spared : (domain q : Str) → SparesKeys disk domain q
unfolding entry_at
spared domain q t = (
  machine-entry keyed willing (generates domain ∷ t) q ∙ sym (machine-entry keyed willing t q),
  machine-entry keyed willing (extracts domain ∷ t) q ∙ sym (machine-entry keyed willing t q),
  machine-entry keyed willing (opendkim_reload ∷ t) q ∙ sym (machine-entry keyed willing t q),
)

readable : (path : Str) → Readable disk path
readable path t plain = machine-reads keyed willing t path plain

domain-IsName : IsName (bytes "a.org")
unfolding bytes is_name str_eq
domain-IsName = IsName-of_test (bytes "a.org") refl

set_up : (setup_dkim host (bytes "a.org") []).0 ≡ ok (bytes "v=DKIM1; k=rsa; p=MIIB")
unfolding setup_dkim remove_dkim machine entry_at ◌>>=◌ append_unique remove_lines rewrite_lines
    remove_keys strip_pem private_key public_key key_dir join_path contains bytes str_eq has_prefix
    trim_space
set_up = refl

set_up_again :
    (setup_dkim host (bytes "a.org") (setup_dkim host (bytes "a.org") []).1).0
    ≡ ok (bytes "v=DKIM1; k=rsa; p=MIIB")
unfolding setup_dkim remove_dkim machine entry_at ◌>>=◌ append_unique remove_lines rewrite_lines
    remove_keys strip_pem private_key public_key key_dir join_path contains bytes str_eq has_prefix
    trim_space
set_up_again = refl

empty_table : (path : Str) → entry_at keyed willing [] path ≡ none → Holds disk [] path []
empty_table path e =
    subst (λ o. IsPlain o × (content o ≡ [])) (sym (machine-entry keyed willing [] path ∙ e))
      (tt, refl)

setup_dkim_twice_example :
    (content (
        disk.entry
          (setup_dkim host (bytes "a.org") (setup_dkim host (bytes "a.org") []).1).1
          key_table)
      ≡ content (disk.entry (setup_dkim host (bytes "a.org") []).1 key_table))
    × (content (
          disk.entry
            (setup_dkim host (bytes "a.org") (setup_dkim host (bytes "a.org") []).1).1
            signing_table)
        ≡ content (disk.entry (setup_dkim host (bytes "a.org") []).1 signing_table))
unfolding entry_at str_eq bytes
setup_dkim_twice_example =
    setup_dkim_twice disk (bytes "a.org") (spared _ _) (spared _ _) (readable _) (readable _) [] _ _
      [] [] (empty_table key_table refl) (empty_table signing_table refl) set_up set_up_again

-- The key table holds the entry of another domain.
abbrev other : Str
other = key_entry (bytes "a.org" ++ bytes "anic") (bytes "key")

abbrev other_set_up : Trace
other_set_up = write_file key_table other 0o644 ∷ []

other_there :
    Holds disk other_set_up key_table
      (text_of [] ++ key_entry (bytes "a.org" ++ bytes "anic") (bytes "key"))
unfolding entry_at str_eq bytes join
other_there =
    subst
      (λ o.
        IsPlain o
        × (content o ≡ text_of [] ++ key_entry (bytes "a.org" ++ bytes "anic") (bytes "key")))
      (sym (machine-entry keyed willing other_set_up key_table)) (tt, refl)

other_removed : (remove_dkim host (bytes "a.org") other_set_up).0 ≡ ok tt
unfolding setup_dkim remove_dkim machine entry_at ◌>>=◌ append_unique remove_lines rewrite_lines
    remove_keys strip_pem private_key public_key key_dir join_path contains bytes str_eq has_prefix
    trim_space
other_removed = refl

remove_dkim-other_domain_example :
    Holds disk (remove_dkim host (bytes "a.org") other_set_up).1 key_table (text_of [])
unfolding entry_at str_eq bytes join
remove_dkim-other_domain_example =
    remove_dkim-other_domain disk (bytes "a.org") domain-IsName (omega arith) (spared _ _)
      (spared _ _) (readable _) (readable _) other_set_up (bytes "anic") (bytes "key") [] []
      (omega arith) (omega arith) tt tt other_there
      (subst (λ o. IsPlain o × (content o ≡ []))
        (sym (machine-entry keyed willing other_set_up signing_table)) (tt, refl))
      other_removed

key_lines-IsKeyLine : All IsKeyLine (bytes "MIIB" ∷ [])
unfolding trim_space has_prefix bytes
key_lines-IsKeyLine = (record { one_line = omega arith; trimmed = refl; not_dashed = refl }, tt)

setup_dkim-returns_example :
    bytes "v=DKIM1; k=rsa; p=MIIB" ≡ bytes "v=DKIM1; k=rsa; p=" ++ join [] (bytes "MIIB" ∷ [])
unfolding machine entry_at public_key key_dir join_path str_eq bytes
setup_dkim-returns_example =
    setup_dkim-returns host (bytes "a.org") [] (bytes "v=DKIM1; k=rsa; p=MIIB") (bytes "MIIB" ∷ [])
      key_lines-IsKeyLine refl set_up
