-- ===== src/Agent/Email/Dkim.antt =====
-- agent/internal/email/dkim.go: DKIM keys and the tables of OpenDKIM.
pub mod Calls
pub mod Steps
pub mod Disk
pub mod Restore
pub mod Pem
pub mod Files
pub mod Tables
pub mod Tests
use gratis.Base.{Option, some, none, ◌||◌, [], ◌∷◌, ◌++◌, if◌then◌else◌, List}
use gratis.Text.{
  has_prefix, str_eq, contains, rooted, split, join_path, join, bytes, trim_space, Str,
}
use gratis.Host.{
  Error, unless_missing, raise, is_not_exist, err, append_string, chmod, ok, write_file,
  run_with_output, open_append, mkdir_all, pure, remove_all, run, read_file, done, perform, wrapf,
  attempt, ask, wrap, ◌>>=◌, ◌>>◌, M, Env,
}

abbrev pub dkim_key_dir : Str
dkim_key_dir = rooted (bytes "etc" ∷ bytes "opendkim" ∷ bytes "keys" ∷ [])

abbrev pub dkim_selector : Str
dkim_selector = bytes "mail"

-- One line of the loop of stripPEMHeaders: the line without spaces at its ends, or nothing.
pub pem_line : Str → Str
pem_line line =
    let s = trim_space line in if str_eq s [] || has_prefix s (bytes "-----") then [] else s

pub strip_lines : List Str → Str
unfolding pem_line
strip_lines [] = []
strip_lines (line ∷ lines) = pem_line line ++ strip_lines lines

-- stripPEMHeaders
pub strip_pem : Str → Str
unfolding strip_lines
strip_pem pem = strip_lines (split 10 pem)

-- The lines that do not contain the text.
pub kept_lines : Str → List Str → List Str
kept_lines marker [] = []
kept_lines marker (line ∷ lines) =
    let kept = kept_lines marker lines in if contains line marker then kept else line ∷ kept

-- What removeLines writes back.
pub kept_text : Str → Str → Str
unfolding kept_lines
kept_text marker content = join (10 ∷ []) (kept_lines marker (split 10 content))

pub append_unique : Env → Str → Str → M (Unit {0})
append_unique env path line = do
  r ← ask env (read_file path)
  if contains r.text line
      then pure tt
      else do perform env (open_append path 0o644); done (perform env (append_string path line))

-- The part of removeLines behind the reading of the file.
pub rewrite_lines : Env → Str → Str → Str → Option Error → M (Unit {0})
unfolding kept_text
rewrite_lines env path marker content none =
    done (perform env (write_file path (kept_text marker content) 0o644))
rewrite_lines env path marker content (some e) = if is_not_exist e then pure tt else raise e

pub remove_lines : Env → Str → Str → M (Unit {0})
unfolding rewrite_lines
remove_lines env path marker = do
  r ← ask env (read_file path)
  rewrite_lines env path marker r.text r.failure

pub key_dir : Str → Str
key_dir domain = join_path (dkim_key_dir ∷ domain ∷ [])

pub private_key : Str → Str
unfolding key_dir
private_key domain = join_path (key_dir domain ∷ (dkim_selector ++ bytes ".private") ∷ [])

pub public_key : Str → Str
unfolding key_dir
public_key domain = join_path (key_dir domain ∷ (dkim_selector ++ bytes ".txt") ∷ [])

pub key_entry : Str → Str → Str
key_entry domain priv_key =
    dkim_selector
    ++ (bytes "._domainkey."
        ++ (domain
            ++ (bytes " "
                ++ (domain
                    ++ (bytes ":" ++ (dkim_selector ++ (bytes ":" ++ (priv_key ++ bytes "\n"))))))))

pub signing_entry : Str → Str
signing_entry domain =
    bytes "*@"
    ++ (domain
        ++ (bytes " " ++ (dkim_selector ++ (bytes "._domainkey." ++ (domain ++ bytes "\n")))))

abbrev pub key_table : Str
key_table = bytes "/etc/opendkim/KeyTable"

abbrev pub signing_table : Str
signing_table = bytes "/etc/opendkim/SigningTable"

abbrev pub reload_opendkim : Env → M (Unit {0})
reload_opendkim env = do
  _ ← attempt (perform env (run (bytes "systemctl") (bytes "reload" ∷ bytes "opendkim" ∷ [])))
  pure tt

pub setup_dkim : Env → Str → M Str
unfolding append_unique strip_pem private_key public_key key_dir key_entry signing_entry
setup_dkim env domain = do
  wrap (λ e. wrapf "create dkim key dir: %w" [] e [])
      (perform env (mkdir_all (key_dir domain) 0o700))
  run_with_output env "generate dkim key: %w: %s" [] (bytes "openssl")
      (bytes "genrsa" ∷ bytes "-out" ∷ private_key domain ∷ bytes "2048" ∷ [])
  perform env (chmod (private_key domain) 0o600)
  run_with_output env "extract dkim public key: %w: %s" [] (bytes "openssl") (
      bytes "rsa"
      ∷ bytes "-in"
      ∷ private_key domain
      ∷ bytes "-pubout"
      ∷ bytes "-out"
      ∷ public_key domain
      ∷ [])
  pem ← perform env (read_file (public_key domain))
  wrap (λ e. wrapf "update KeyTable: %w" [] e [])
      (append_unique env key_table (key_entry domain (private_key domain)))
  wrap (λ e. wrapf "update SigningTable: %w" [] e [])
      (append_unique env signing_table (signing_entry domain))
  reload_opendkim env
  pure (bytes "v=DKIM1; k=rsa; p=" ++ strip_pem pem.text)

-- What RemoveDKIM looks for in the lines of both tables.
pub marker : Str → Str
marker domain = bytes "._domainkey." ++ domain

-- os.RemoveAll of the key directory.
pub remove_keys : Env → Str → M (Unit {0})
unfolding key_dir
remove_keys env domain =
    unless_missing (λ e. wrapf "remove dkim keys: %w" [] e [])
      (done (perform env (remove_all (key_dir domain))))

pub remove_dkim : Env → Str → M (Unit {0})
unfolding remove_keys remove_lines marker
remove_dkim env domain = do
  remove_keys env domain
  wrap (λ e. wrapf "update %s: %w" (key_table ∷ []) e [])
      (remove_lines env key_table (marker domain))
  wrap (λ e. wrapf "update %s: %w" (signing_table ∷ []) e [])
      (remove_lines env signing_table (marker domain))
  reload_opendkim env
