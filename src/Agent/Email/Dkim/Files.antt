-- ===== src/Agent/Email/Dkim/Files.antt =====
-- What dkim.go does to one file of the host: appendUnique and removeLines.
use gratis.Host.Success.{done-calls, done-ok, perform-ok, bind-ok}
use gratis.Host.Disk.{content, file, IsPlain, Disk}
use gratis.Text.{join, split, contains-append, contains, Str}
use gratis.Host.{
  Result, raise, err, Error, write_file, is_not_exist, pure, append_string, done, ◌>>◌, M, perform,
  ok, open_append, ◌>>=◌, read_file, Trace, Env,
}
use gratis.Agent.Email.Dkim.{kept_lines, kept_text, rewrite_lines, remove_lines, append_unique}
use gratis.Base.{
  Option-cases, ◌≢◌, ◌∙◌, append-nil, ap, refl, sym, true, inr, some, inl, subst, Bool-cases, ◌++◌,
  ◌≡◌, ◌∷◌, [], if◌then◌else◌,
}

-- appendUnique as a function of the file's content.
abbrev pub appended : Str → Str → Str
appended old line = if contains old line then old else old ++ line

pub appended_twice : (old line : Str) → appended (appended old line) line ≡ appended old line
appended_twice old line = elim (Bool-cases (contains old line)) [
  | inl e ↦ rw (e, e) refl
  | inr e ↦
      let there : contains (old ++ line) line ≡ true =
        ap (λ s. contains (old ++ s) line) (sym (append-nil line)) ∙ contains-append old line [] in
      rw (e, there) refl
]

module _ {env : Env} (disk : Disk env) where
  open disk use {entry}

  -- What the file holds, that is not a link; nothing where it is missing.
  abbrev pub Holds : Trace → Str → Str → Type 0
  Holds t path s = IsPlain (entry t path) × (content (entry t path) ≡ s)

  pub Holds-of_eq :
      (t t' : Trace) (path s : Str)
      → entry t' path ≡ entry t path
      → Holds t path s
      → Holds t' path s
  Holds-of_eq t t' path s e h = subst (λ o. IsPlain o × (content o ≡ s)) (sym e) h

  pub Holds-of_file : (t : Trace) (path s : Str) → entry t path ≡ some (file s) → Holds t path s
  Holds-of_file t path s e = subst (λ o. IsPlain o × (content o ≡ s)) (sym e) (tt, refl)

  -- os.ReadFile gives all that the file holds.
  abbrev pub Readable : Str → Type 0
  Readable path =
      (t : Trace) → IsPlain (entry t path) → (env t (read_file path)).text ≡ content (entry t path)

  module _ (path line : Str) where
    -- The second half of appendUnique.
    abbrev appending : M (Unit {0})
    appending = perform env (open_append path 0o644) >> done (perform env (append_string path line))

    appending-Holds :
        (s : Str) (t : Trace)
        → Holds t path s
        → (appending t).0 ≡ ok tt
        → Holds (appending t).1 path (s ++ line)
    unfolding perform
    appending-Holds s t h success =
        let open' = perform env (open_append path 0o644) in
        let (a, e, calls, success') =
          bind-ok open' (λ _. done (perform env (append_string path line))) t tt success in
        let t₁ = open_append path 0o644 ∷ t in
        let old = content (entry t path) in
        let there : entry t₁ path ≡ some (file old) =
          disk.opens t path 0o644 h.0 (perform-ok env (open_append path 0o644) t a e) in
        let end =
          disk.appends t₁ path line old there (done-ok env (append_string path line) t₁ success') in
        let calls' = calls ∙ done-calls env (append_string path line) t₁ in
        Holds-of_file (appending t).1 path (s ++ line)
          (ap (λ u. entry u path) calls' ∙ (end ∙ ap (λ x. some (file (x ++ line))) (h.1)))

    appending_keeps :
        (s : Str) (t : Trace) (q : Str)
        → Holds t path s
        → q ≢ path
        → entry (appending t).1 q ≡ entry t q
    appending_keeps s t q h n =
        let t₁ = open_append path 0o644 ∷ t in
        let opened = disk.open_keeps t path 0o644 q h.0 n in
        elim (Option-cases (env t (open_append path 0o644)).failure) [
          | inl e ↦
              let calls : (appending t).1 ≡ append_string path line ∷ t₁ =
                unfold perform ◌>>=◌ in rw e (done-calls env (append_string path line) t₁) in
              let there =
                (Holds-of_file t₁ path (content (entry t path))
                  (disk.opens t path 0o644 h.0 e)).0 in
              ap (λ u. entry u q) calls ∙ (disk.append_keeps t₁ path line q there n ∙ opened)
          | inr (x, e) ↦
              let calls : (appending t).1 ≡ t₁ = unfold perform ◌>>=◌ in rw e refl in
              ap (λ u. entry u q) calls ∙ opened
        ]

    module _ (s : Str) (t : Trace) (h : Holds t path s) where
      after_read : Holds (read_file path ∷ t) path s
      after_read = Holds-of_eq t (read_file path ∷ t) path s (disk.read_keeps t path path) h

      pub append_unique-Holds :
          Readable path
          → (append_unique env path line t).0 ≡ ok tt
          → Holds (append_unique env path line t).1 path (appended s line)
      unfolding append_unique ◌>>=◌
      append_unique-Holds readable success =
          let same : (env t (read_file path)).text ≡ s = readable t h.0 ∙ h.1 in
          elim (Bool-cases (contains s line)) [
            | inl e ↦ rw (same, e) after_read
            | inr e ↦
                rw (same, e)
                  (appending-Holds s (read_file path ∷ t) after_read (
                    subst (λ b. ((if b then pure tt else appending) (read_file path ∷ t)).0 ≡ ok tt)
                      (ap (λ x. contains x line) same ∙ e) success))
          ]

      -- Another path is left alone, whether or not it succeeds.
      pub append_unique_keeps :
          (q : Str) → q ≢ path → entry (append_unique env path line t).1 q ≡ entry t q
      unfolding append_unique ◌>>=◌
      append_unique_keeps q n = elim (Bool-cases (contains (env t (read_file path)).text line)) [
        | inl e ↦ rw e (disk.read_keeps t path q)
        | inr e ↦
            rw e (appending_keeps s (read_file path ∷ t) q after_read n ∙ disk.read_keeps t path q)
      ]

  module _ (path m s : Str) (t : Trace) (h : Holds t path s) where
    kept_text-nil : kept_text m [] ≡ []
    unfolding kept_text kept_lines split join
    kept_text-nil = elim (Bool-cases (contains [] m)) [ inl e ↦ rw e refl | inr e ↦ rw e refl ]

    -- A file that is missing stays so.
    missing_Holds :
        (e : Error)
        → (env t (read_file path)).failure ≡ some e
        → is_not_exist e ≡ true
        → Holds (read_file path ∷ t) path (kept_text m s)
    missing_Holds e failed gone =
        let none' = disk.read_misses t path e h.0 failed gone in
        let nil : s ≡ [] = sym h.1 ∙ ap content none' in
        let same = disk.read_keeps t path path in
        Holds-of_eq t (read_file path ∷ t) path (kept_text m s) same
          (h.0, h.1 ∙ (nil ∙ sym (ap (kept_text m) nil ∙ kept_text-nil)))

    written :
        (o : Str)
        → o ≡ s
        → (done (perform env (write_file path (kept_text m o) 0o644)) (read_file path ∷ t)).0
          ≡ ok tt
        → Holds
            (done (perform env (write_file path (kept_text m o) 0o644)) (read_file path ∷ t)).1
            path
            (kept_text m s)
    written o same success =
        let call = write_file path (kept_text m o) 0o644 in
        let t₁ = read_file path ∷ t in
        let plain = (Holds-of_eq t t₁ path s (disk.read_keeps t path path) h).0 in
        let there = disk.writes t₁ path (kept_text m o) 0o644 plain (done-ok env call t₁ success) in
        Holds-of_file (done (perform env call) t₁).1 path (kept_text m s) (
          ap (λ u. entry u path) (done-calls env call t₁)
          ∙ (there ∙ ap (λ x. some (file (kept_text m x))) same))

    pub remove_lines-Holds :
        Readable path
        → (remove_lines env path m t).0 ≡ ok tt
        → Holds (remove_lines env path m t).1 path (kept_text m s)
    unfolding remove_lines rewrite_lines ◌>>=◌
    remove_lines-Holds readable success = elim (Option-cases (env t (read_file path)).failure) [
      | inl e ↦ rw e (
          written _ (readable t h.0 ∙ h.1) (
            subst
              (λ o.
                (rewrite_lines env path m (env t (read_file path)).text o (read_file path ∷ t)).0
                ≡ ok tt)
              e success))
      | inr (x, e) ↦ elim (Bool-cases (is_not_exist x)) [
        | inl g ↦ rw (e, g) (missing_Holds x e g)
        | inr g ↦
            let success' =
              subst
                (λ o.
                  (rewrite_lines env path m (env t (read_file path)).text o (read_file path ∷ t)).0
                  ≡ ok tt)
                e success in
            let h' : Path (Result (Unit {0})) (err x) (ok tt) =
              subst (λ b. ((if b then pure tt else raise x) (read_file path ∷ t)).0 ≡ ok tt) g
                success' in
            cc h'
      ]
    ]

    pub remove_lines_keeps :
        (q : Str) → q ≢ path → entry (remove_lines env path m t).1 q ≡ entry t q
    unfolding remove_lines rewrite_lines ◌>>=◌
    remove_lines_keeps q n = elim (Option-cases (env t (read_file path)).failure) [
      | inl e ↦
          rw (e, done-calls)
            (disk.write_keeps (read_file path ∷ t) path _ 0o644 q
                (Holds-of_eq t (read_file path ∷ t) path s (disk.read_keeps t path path) h).0 n
              ∙ disk.read_keeps t path q)
      | inr (x, e) ↦ elim (Bool-cases (is_not_exist x)) [
        | inl g ↦ rw (e, g) (disk.read_keeps t path q)
        | inr g ↦ rw (e, g) (disk.read_keeps t path q)
      ]
    ]
