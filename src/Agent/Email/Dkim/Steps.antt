-- ===== src/Agent/Email/Dkim/Steps.antt =====
-- The steps of SetupDKIM and RemoveDKIM of dkim.go that succeed.
use gratis.Host.Success.{perform-value, done-calls, bind-ok}
use gratis.Host.{
  Reply, remove_all, unless_missing, err, Result, wrapf, ◌>>◌, map_error, pure, attempt, ◌>>=◌,
  mkdir_all, chmod, ok, run_with_output, read_file, Error, perform, wrap, run, Trace, M, Env, Call,
}
use gratis.Text.{bytes, Str}
use gratis.Agent.Email.Dkim.{
  strip_pem, marker, remove_keys, remove_dkim, remove_lines, reload_opendkim, key_dir, key_entry,
  signing_entry, private_key, public_key, key_table, signing_table, append_unique, setup_dkim,
}
use gratis.Base.{ap, ◌++◌, subst, refl, ◌∙◌, ◌≡◌, ◌∷◌, []}

-- The two runs of openssl, and the reload.
abbrev pub generates : Str → Call
generates domain =
    run (bytes "openssl") (bytes "genrsa" ∷ bytes "-out" ∷ private_key domain ∷ bytes "2048" ∷ [])

abbrev pub extracts : Str → Call
extracts domain = run (bytes "openssl") (
    bytes "rsa"
    ∷ bytes "-in"
    ∷ private_key domain
    ∷ bytes "-pubout"
    ∷ bytes "-out"
    ∷ public_key domain
    ∷ [])

abbrev pub opendkim_reload : Call
opendkim_reload = run (bytes "systemctl") (bytes "reload" ∷ bytes "opendkim" ∷ [])

-- The calls of SetupDKIM before the public key is read, and before the tables, newest first.
abbrev pub with_pair : Str → Trace → Trace
with_pair domain t =
    extracts domain
    ∷ chmod (private_key domain) 0o600
    ∷ generates domain
    ∷ mkdir_all (key_dir domain) 0o700
    ∷ t

abbrev pub with_keys : Str → Trace → Trace
with_keys domain t = read_file (public_key domain) ∷ with_pair domain t

map_error-ok :
    (f : Error → Error) (r : Result (Unit {0})) (u : Unit {0}) → map_error f r ≡ ok u → r ≡ ok tt
map_error-ok f (ok a) u h = refl
map_error-ok f (err e) u h = cc h

module _ (env : Env) (domain : Str) where
  abbrev pub key_line_added : M (Unit {0})
  key_line_added = append_unique env key_table (key_entry domain (private_key domain))

  abbrev pub signing_line_added : M (Unit {0})
  signing_line_added = append_unique env signing_table (signing_entry domain)

  reload_calls : (s : Str) (t : Trace) → ((reload_opendkim env >> pure s) t).1 ≡ opendkim_reload ∷ t
  unfolding ◌>>=◌ attempt perform pure
  reload_calls s t = refl

  -- Where SetupDKIM succeeds, both tables have been written.
  pub setup_dkim-calls :
      (t : Trace) (v : Str)
      → (setup_dkim env domain t).0 ≡ ok v
      → ((key_line_added (with_keys domain t)).0 ≡ ok tt)
        × ((signing_line_added (key_line_added (with_keys domain t)).1).0 ≡ ok tt)
        × ((setup_dkim env domain t).1
            ≡ opendkim_reload ∷ (signing_line_added (key_line_added (with_keys domain t)).1).1)
  unfolding setup_dkim wrap perform run_with_output
  setup_dkim-calls t v h =
      let (_, _, c1, h1) = bind-ok _ _ t v h in
      let (_, _, c2, h2) = bind-ok _ _ _ v h1 in
      let (_, _, c3, h3) = bind-ok _ _ _ v h2 in
      let (_, _, c4, h4) = bind-ok _ _ _ v h3 in
      let (_, _, c5, h5) = bind-ok _ _ _ v h4 in
      let (_, a6, c6, h6) = bind-ok _ _ _ v h5 in
      let (_, a7, c7, h7) = bind-ok _ _ _ v h6 in
      (
        map_error-ok (λ e. wrapf "update KeyTable: %w" [] e [])
            (key_line_added (with_keys domain t)).0 _ a6,
        map_error-ok (λ e. wrapf "update SigningTable: %w" [] e [])
            (signing_line_added (key_line_added (with_keys domain t)).1).0 _ a7,
        c1 ∙ c2 ∙ c3 ∙ c4 ∙ c5 ∙ c6 ∙ c7 ∙ reload_calls _ _,
      )

  returned : (s v : Str) (t : Trace) → ((reload_opendkim env >> pure s) t).0 ≡ ok v → v ≡ s
  unfolding ◌>>=◌ attempt perform pure
  returned s v t h = cc h

  -- It returns the text of the public key's file, stripped.
  pub setup_dkim-value :
      (t : Trace) (v : Str)
      → (setup_dkim env domain t).0 ≡ ok v
      → v
        ≡ bytes "v=DKIM1; k=rsa; p="
          ++ strip_pem (env (with_pair domain t) (read_file (public_key domain))).text
  unfolding setup_dkim wrap perform run_with_output
  setup_dkim-value t v h =
      let (_, _, _, h1) = bind-ok _ _ t v h in
      let (_, _, _, h2) = bind-ok _ _ _ v h1 in
      let (_, _, _, h3) = bind-ok _ _ _ v h2 in
      let (_, _, _, h4) = bind-ok _ _ _ v h3 in
      let (pem, a5, _, h5) = bind-ok _ _ _ v h4 in
      let (_, _, _, h6) = bind-ok _ _ _ v h5 in
      let (_, _, _, h7) = bind-ok _ _ _ v h6 in
      returned _ v _ h7
      ∙ ap (λ (r : Reply). bytes "v=DKIM1; k=rsa; p=" ++ strip_pem r.text)
          (perform-value env (read_file (public_key domain)) (with_pair domain t) pem a5)

-- Where RemoveDKIM succeeds, both tables have been rewritten.
module _ (env : Env) (domain : Str) where
  abbrev pub key_line_removed : M (Unit {0})
  key_line_removed = remove_lines env key_table (marker domain)

  abbrev pub signing_line_removed : M (Unit {0})
  signing_line_removed = remove_lines env signing_table (marker domain)

  reloaded : (t : Trace) → (reload_opendkim env t).1 ≡ opendkim_reload ∷ t
  unfolding ◌>>=◌ attempt perform pure
  reloaded t = refl

  pub remove_dkim-calls :
      (t : Trace)
      → (remove_dkim env domain t).0 ≡ ok tt
      → ((key_line_removed (remove_all (key_dir domain) ∷ t)).0 ≡ ok tt)
        × ((signing_line_removed (key_line_removed (remove_all (key_dir domain) ∷ t)).1).0 ≡ ok tt)
        × ((remove_dkim env domain t).1
            ≡ opendkim_reload
              ∷ (signing_line_removed (key_line_removed (remove_all (key_dir domain) ∷ t)).1).1)
  unfolding remove_dkim remove_keys wrap unless_missing
  remove_dkim-calls t h =
      let t₁ = remove_all (key_dir domain) ∷ t in
      let (_, _, c1, h1) = bind-ok _ _ t tt h in
      let (_, a2, c2, h2) = bind-ok _ _ _ tt h1 in
      let (_, a3, c3, h3) = bind-ok _ _ _ tt h2 in
      let u = (remove_keys env domain t).1 in
      let f : Error → Error = λ e. wrapf "update %s: %w" (key_table ∷ []) e [] in
      let g : Error → Error = λ e. wrapf "update %s: %w" (signing_table ∷ []) e [] in
      subst
        (λ u.
          ((key_line_removed u).0 ≡ ok tt)
          × ((signing_line_removed (key_line_removed u).1).0 ≡ ok tt)
          × ((remove_dkim env domain t).1
              ≡ opendkim_reload ∷ (signing_line_removed (key_line_removed u).1).1))
        (done-calls env (remove_all (key_dir domain)) t)
        (
          map_error-ok f (key_line_removed u).0 _ a2,
          map_error-ok g (signing_line_removed (key_line_removed u).1).0 _ a3,
          c1 ∙ c2 ∙ c3 ∙ reloaded _,
        )
