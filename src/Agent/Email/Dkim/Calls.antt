-- ===== src/Agent/Email/Dkim/Calls.antt =====
-- The calls that email/dkim.go makes.
use gratis.Text.{bytes, Str}
use gratis.Agent.Email.Dkim.{
  signing_entry, public_key, signing_table, key_entry, private_key, marker, kept_text, key_dir,
  key_table, setup_dkim, remove_keys, remove_dkim, remove_lines, append_unique, rewrite_lines,
}
use gratis.Base.{[], ◌∷◌, Option}
use gratis.Host.Rules.{Issues-mono, Issues, issues_rules}
use gratis.Host.{
  remove_all, write_file, append_string, open_append, read_file, chmod, mkdir_all, Error, run, Call,
  Env,
}

-- What appendUnique may do to a file with a line.
pub data AppendCall (path line : Str) : Call → Type 0 where
  reads_old : AppendCall path line (read_file path)
  opens : AppendCall path line (open_append path 0o644)
  appends : AppendCall path line (append_string path line)

-- What removeLines may do to a file: it is read, and written without the lines that hold the marker.
pub data RewriteCall (path m : Str) : Call → Type 0 where
  reads_lines : RewriteCall path m (read_file path)
  writes_lines : (text : Str) → RewriteCall path m (write_file path (kept_text m text) 0o644)

-- What SetupDKIM may do: the directory and the two keys of the domain are made, the entries of the
-- domain are appended to both tables, and OpenDKIM is reloaded.
pub data SetupCall (domain : Str) : Call → Type 0 where
  makes_key_dir : SetupCall domain (mkdir_all (key_dir domain) 0o700)
  generates_key : SetupCall domain (
      run
        (bytes "openssl")
        (bytes "genrsa" ∷ bytes "-out" ∷ private_key domain ∷ bytes "2048" ∷ []))
  hides_key : SetupCall domain (chmod (private_key domain) 0o600)
  extracts_key : SetupCall domain (
      run (bytes "openssl") (
        bytes "rsa"
        ∷ bytes "-in"
        ∷ private_key domain
        ∷ bytes "-pubout"
        ∷ bytes "-out"
        ∷ public_key domain
        ∷ []))
  reads_key : SetupCall domain (read_file (public_key domain))
  adds_key_entry :
      (k : Call)
      → AppendCall key_table (key_entry domain (private_key domain)) k
      → SetupCall domain k
  adds_signing_entry :
      (k : Call) → AppendCall signing_table (signing_entry domain) k → SetupCall domain k
  reloads : SetupCall domain (run (bytes "systemctl") (bytes "reload" ∷ bytes "opendkim" ∷ []))

-- What RemoveDKIM may do: the keys of the domain are removed, and from both tables the lines that hold
-- its marker, and OpenDKIM is reloaded.
pub data CleanupCall (domain : Str) : Call → Type 0 where
  removes_keys : CleanupCall domain (remove_all (key_dir domain))
  cuts_key_table : (k : Call) → RewriteCall key_table (marker domain) k → CleanupCall domain k
  cuts_signing_table :
      (k : Call) → RewriteCall signing_table (marker domain) k → CleanupCall domain k
  reloads_after :
      CleanupCall domain (run (bytes "systemctl") (bytes "reload" ∷ bytes "opendkim" ∷ []))

ruleset setup_rules =
    (makes_key_dir, generates_key, hides_key, extracts_key, reads_key, reloads, issues_rules)

module _ (env : Env) where
  append_unique-AppendCall :
      (path line : Str) → Issues (AppendCall path line) (append_unique env path line)
  unfolding append_unique
  append_unique-AppendCall path line = search (reads_old, opens, appends, issues_rules) depth 12

  rewrite_lines-RewriteCall :
      (path m content : Str) (o : Option Error)
      → Issues (RewriteCall path m) (rewrite_lines env path m content o)
  unfolding rewrite_lines
  rewrite_lines-RewriteCall path m content Option.none =
      search (reads_lines, writes_lines, issues_rules) depth 12
  rewrite_lines-RewriteCall path m content (Option.some e) =
      search (reads_lines, writes_lines, issues_rules) depth 12

  remove_lines-RewriteCall : (path m : Str) → Issues (RewriteCall path m) (remove_lines env path m)
  unfolding remove_lines
  remove_lines-RewriteCall path m =
      search (reads_lines, rewrite_lines-RewriteCall, issues_rules) depth 12

  module _ (domain : Str) where
    key_entry_added :
        Issues
          (SetupCall domain)
          (append_unique env key_table (key_entry domain (private_key domain)))
    key_entry_added = Issues-mono (λ k p. adds_key_entry k p) (append_unique-AppendCall _ _)

    signing_entry_added :
        Issues (SetupCall domain) (append_unique env signing_table (signing_entry domain))
    signing_entry_added = Issues-mono (λ k p. adds_signing_entry k p) (append_unique-AppendCall _ _)

    pub setup_dkim-SetupCall : Issues (SetupCall domain) (setup_dkim env domain)
    unfolding setup_dkim
    setup_dkim-SetupCall = search (setup_rules, key_entry_added, signing_entry_added) depth 30

    key_lines_cut : Issues (CleanupCall domain) (remove_lines env key_table (marker domain))
    key_lines_cut = Issues-mono (λ k p. cuts_key_table k p) (remove_lines-RewriteCall _ _)

    signing_lines_cut : Issues (CleanupCall domain) (remove_lines env signing_table (marker domain))
    signing_lines_cut = Issues-mono (λ k p. cuts_signing_table k p) (remove_lines-RewriteCall _ _)

    pub remove_dkim-CleanupCall : Issues (CleanupCall domain) (remove_dkim env domain)
    unfolding remove_dkim remove_keys
    remove_dkim-CleanupCall =
        search (removes_keys, reloads_after, key_lines_cut, signing_lines_cut, issues_rules) depth
          30
