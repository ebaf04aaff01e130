-- ===== src/Agent/Email/Dkim/Disk.antt =====
-- What is in the tables of OpenDKIM behind SetupDKIM and RemoveDKIM of dkim.go.
use gratis.Agent.Email.Dkim.Files.{
  remove_lines_keeps, remove_lines-Holds, appended_twice, append_unique_keeps, append_unique-Holds,
  Holds-of_eq, appended, Holds, Readable,
}
use gratis.Agent.Email.Dkim.Steps.{
  signing_line_removed, key_line_removed, remove_dkim-calls, opendkim_reload, signing_line_added,
  key_line_added, setup_dkim-calls, extracts, generates, with_keys,
}
use gratis.Host.Disk.{content, Disk}
use gratis.Host.{remove_all, chmod, mkdir_all, ok, Trace, Env}
use gratis.Text.{
  byte_at, IsName-of_tests, str_eq, has_prefix, join, is_name, join_path-name, rooted, IsName, Str,
  bytes,
}
use gratis.Agent.Email.Dkim.{
  marker, kept_text, remove_dkim, public_key, signing_entry, private_key, key_entry, key_dir,
  key_table, signing_table, setup_dkim,
}
use gratis.Base.{refl, false, ◌++◌, ◌<◌, arith, ap, sym, ◌∙◌, ◌≡◌, ◌≢◌, ◌∷◌, []}

tables_differ : signing_table ≢ key_table
unfolding bytes
tables_differ e = omega (arith, ap (byte_at 14) e)

module _ {env : Env} (disk : Disk env) where
  open disk use {entry}

  -- The programs that a domain's setup and removal run leave the path alone.
  abbrev pub SparesKeys : Str → Str → Type 0
  SparesKeys domain q =
      (t : Trace)
      → (entry (generates domain ∷ t) q ≡ entry t q)
        × (entry (extracts domain ∷ t) q ≡ entry t q)
        × (entry (opendkim_reload ∷ t) q ≡ entry t q)

  module _ (domain : Str) where
    with_keys_keeps :
        (t : Trace) (q : Str) → SparesKeys domain q → entry (with_keys domain t) q ≡ entry t q
    with_keys_keeps t q spares =
        let t₁ = mkdir_all (key_dir domain) 0o700 ∷ t in
        let t₂ = generates domain ∷ t₁ in
        let t₃ = chmod (private_key domain) 0o600 ∷ t₂ in
        disk.read_keeps (extracts domain ∷ t₃) (public_key domain) q
        ∙ ((spares t₃).1
            ∙ (disk.chmod_keeps t₂ (private_key domain) 0o600 q
                ∙ ((spares t₁).0 ∙ disk.dir_keeps t (key_dir domain) 0o700 q)))

    module _ (spares : SparesKeys domain key_table) (spares' : SparesKeys domain signing_table)
        (readable : Readable disk key_table) (readable' : Readable disk signing_table) where
      -- Each table gets the domain's line, unless it contains it.
      pub setup_dkim-Holds :
          (t : Trace) (v k s : Str)
          → Holds disk t key_table k
          → Holds disk t signing_table s
          → (setup_dkim env domain t).0 ≡ ok v
          → Holds disk
              (setup_dkim env domain t).1
              key_table
              (appended k (key_entry domain (private_key domain)))
            × Holds disk
                (setup_dkim env domain t).1
                signing_table
                (appended s (signing_entry domain))
      setup_dkim-Holds t v k s h h' success =
          let (added, added', calls) = setup_dkim-calls env domain t v success in
          let t₁ = with_keys domain t in
          let t₂ = (key_line_added env domain t₁).1 in
          let t₃ = (signing_line_added env domain t₂).1 in
          let end = (setup_dkim env domain t).1 in
          let line = key_entry domain (private_key domain) in
          let line' = signing_entry domain in
          let h₁ = Holds-of_eq disk t t₁ key_table k (with_keys_keeps t key_table spares) h in
          let h₁' =
            Holds-of_eq disk t t₁ signing_table s (with_keys_keeps t signing_table spares') h' in
          let h₂ = append_unique-Holds disk key_table line k t₁ h₁ readable added in
          let h₂' =
            Holds-of_eq disk t₁ t₂ signing_table s
              (append_unique_keeps disk key_table line k t₁ h₁ signing_table tables_differ) h₁' in
          let kept =
            append_unique_keeps disk signing_table line' s t₂ h₂' key_table
              (λ e. tables_differ (sym e)) in
          (
            Holds-of_eq disk t₂ end key_table (appended k line)
                (ap (λ u. entry u key_table) calls ∙ ((spares t₃).2 ∙ kept)) h₂,
            Holds-of_eq disk t₃ end signing_table (appended s line')
                (ap (λ u. entry u signing_table) calls ∙ (spares' t₃).2)
                (append_unique-Holds disk signing_table line' s t₂ h₂' readable' added'),
          )

      -- On a host with files (`Disk`), where no table is a link, openssl and the reload leave the tables
      -- alone, and every reading of a table gives all that it holds, be it reported as a success or not:
      -- a SetupDKIM that succeeds behind one that succeeded leaves both tables as the first left them.
      pub setup_dkim_twice :
          (t : Trace) (v w k s : Str)
          → Holds disk t key_table k
          → Holds disk t signing_table s
          → (setup_dkim env domain t).0 ≡ ok v
          → (setup_dkim env domain (setup_dkim env domain t).1).0 ≡ ok w
          → (content (entry (setup_dkim env domain (setup_dkim env domain t).1).1 key_table)
              ≡ content (entry (setup_dkim env domain t).1 key_table))
            × (content (entry (setup_dkim env domain (setup_dkim env domain t).1).1 signing_table)
                ≡ content (entry (setup_dkim env domain t).1 signing_table))
      setup_dkim_twice t v w k s h h' once again =
          let line = key_entry domain (private_key domain) in
          let line' = signing_entry domain in
          let t' = (setup_dkim env domain t).1 in
          let (a, a') = setup_dkim-Holds t v k s h h' once in
          let (b, b') = setup_dkim-Holds t' w (appended k line) (appended s line') a a' again in
          (b.1 ∙ (appended_twice k line ∙ sym a.1), b'.1 ∙ (appended_twice s line' ∙ sym a'.1))

module _ (domain : Str) (name : IsName domain) where
  pub key_dir-rooted :
      key_dir domain ≡ rooted (bytes "etc" ∷ bytes "opendkim" ∷ bytes "keys" ∷ domain ∷ [])
  unfolding key_dir is_name str_eq bytes
  key_dir-rooted =
      join_path-name (bytes "etc") (bytes "opendkim" ∷ bytes "keys" ∷ []) domain
        (IsName-of_tests (bytes "etc" ∷ bytes "opendkim" ∷ bytes "keys" ∷ []) refl) name

  -- The key directory is not above the tables.
  keys_apart : (q : Str) → byte_at 14 q < 107 → q ≢ key_dir domain
  unfolding bytes join
  keys_apart q h e = omega (arith, ap (byte_at 14) (e ∙ key_dir-rooted), h)

  above_key_table : has_prefix key_table (key_dir domain ++ bytes "/") ≡ false
  unfolding has_prefix bytes join
  above_key_table = rw key_dir-rooted refl

  above_signing_table : has_prefix signing_table (key_dir domain ++ bytes "/") ≡ false
  unfolding has_prefix bytes join
  above_signing_table = rw key_dir-rooted refl

module _ {env : Env} (disk : Disk env) (domain : Str) (name : IsName domain)
    (spares : SparesKeys disk domain key_table) (spares' : SparesKeys disk domain signing_table)
    (readable : Readable disk key_table) (readable' : Readable disk signing_table) where
  open disk use {entry}

  -- Each table loses the lines that contain the marker.
  pub remove_dkim-Holds :
      (t : Trace) (k s : Str)
      → Holds disk t key_table k
      → Holds disk t signing_table s
      → (remove_dkim env domain t).0 ≡ ok tt
      → Holds disk (remove_dkim env domain t).1 key_table (kept_text (marker domain) k)
        × Holds disk (remove_dkim env domain t).1 signing_table (kept_text (marker domain) s)
  unfolding bytes
  remove_dkim-Holds t k s h h' success =
      let (removed, removed', calls) = remove_dkim-calls env domain t success in
      let m = marker domain in
      let t₁ = remove_all (key_dir domain) ∷ t in
      let t₂ = (key_line_removed env domain t₁).1 in
      let t₃ = (signing_line_removed env domain t₂).1 in
      let end = (remove_dkim env domain t).1 in
      let h₁ =
        Holds-of_eq disk t t₁ key_table k
          (disk.remove_all_keeps t (key_dir domain) key_table
            (keys_apart domain name key_table (omega arith)) (above_key_table domain name))
          h in
      let h₁' =
        Holds-of_eq disk t t₁ signing_table s
          (disk.remove_all_keeps t (key_dir domain) signing_table
            (keys_apart domain name signing_table (omega arith)) (above_signing_table domain name))
          h' in
      let h₂ = remove_lines-Holds disk key_table m k t₁ h₁ readable removed in
      let h₂' =
        Holds-of_eq disk t₁ t₂ signing_table s
          (remove_lines_keeps disk key_table m k t₁ h₁ signing_table tables_differ) h₁' in
      let kept =
        remove_lines_keeps disk signing_table m s t₂ h₂' key_table (λ e. tables_differ (sym e)) in
      (
        Holds-of_eq disk t₂ end key_table (kept_text m k)
            (ap (λ u. entry u key_table) calls ∙ ((spares t₃).2 ∙ kept)) h₂,
        Holds-of_eq disk t₃ end signing_table (kept_text m s)
            (ap (λ u. entry u signing_table) calls ∙ (spares' t₃).2)
            (remove_lines-Holds disk signing_table m s t₂ h₂' readable' removed'),
      )
