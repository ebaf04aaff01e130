-- ===== src/Agent/Main/Managers.antt =====
-- With which managers an agent is started.
use gratis.Settings.{flag_or_env-nil, flag_or_env}
use gratis.Agent.Dispatch.{Dispatcher}
use gratis.Host.{Result, ok, Trace, Env, pure, attempt, ◌>>=◌}
use gratis.Agent.Main.{
  Agent, start_agent, Flags, settings, dns_client, database_manager, email_manager,
}
use gratis.Base.{
  ◌∙◌, sym, ap, inr, Option-cases, arith, inl, Option, ◌⊎◌, Bool-cases, none, some, Bool, refl, ◌≢◌,
  true, false, ◌↔◌, ◌≡◌, ◌∷◌, [],
}
use gratis.Text.{str_eq_iff, bytes, str_eq, Str}

str_eq-nil : (s : Str) → str_eq s [] ≡ true → s ≡ []
unfolding str_eq
str_eq-nil [] h = refl
str_eq-nil (c ∷ s) h = cc h

str_eq-not_nil : (s : Str) → str_eq s [] ≡ false → s ≢ []
unfolding str_eq
str_eq-not_nil [] h = cc h
str_eq-not_nil (c ∷ s) h = λ e. cc e

-- An error of a manager is never one of main.
database_manager-ok :
    (env : Env) (socket : Str) (t : Trace)
    → (b : Bool) × (t' : Trace) × (database_manager env socket t ≡ (ok b, t'))
unfolding database_manager ◌>>=◌ attempt pure
database_manager-ok env socket t = (_, _, refl)

email_manager-ok :
    (env : Env) (db : Bool) (t : Trace)
    → (b : Bool) × (t' : Trace) × (email_manager env db t ≡ (ok b, t')) × (b ≡ true → db ≡ true)
unfolding email_manager ◌>>=◌ attempt pure
email_manager-ok env false t = (_, _, refl, λ e. e)
email_manager-ok env true t = (_, _, refl, λ e. refl)

-- What main makes of settings that it accepts.
pub record Managed (env : Env) (f : Flags) (t : Trace) (r : Result (Option Agent) × Trace)
    : Type 0 where
  pub db : Bool
  pub email : Bool
  pub calls : Trace
  pub after_db : Trace
  pub database : database_manager env f.db_socket t ≡ (ok db, after_db)
  pub mail_needs_database : email ≡ true → db ≡ true
  pub agent : r ≡ (
    ok (
        some (record {
          api_addr = f.api;
          token = f.token;
          dispatcher = record { db = db; dns = dns_client f.pdns_url f.pdns_key; email = email };
        })),
    calls,
  )

pub start_agent-some :
    (env : Env) (getenv : Str → Str) (flags f : Flags) (t : Trace)
    → settings getenv flags ≡ some f
    → Managed env f t (start_agent env getenv flags t)
unfolding start_agent ◌>>=◌ pure
start_agent-some env getenv flags f t h =
    let (db, t1, e1) = database_manager-ok env f.db_socket t in
    let (email, t2, e2, needs) = email_manager-ok env db t1 in
    record {
      db = db;
      email = email;
      calls = t2;
      after_db = t1;
      database = e1;
      mail_needs_database = needs;
      agent = rw (start_agent, h, e1, e2) refl;
    }

pub start_agent-none :
    (env : Env) (getenv : Str → Str) (flags : Flags) (t : Trace)
    → settings getenv flags ≡ none
    → start_agent env getenv flags t ≡ (ok none, t)
unfolding start_agent pure
start_agent-none env getenv flags t h = rw (start_agent, h) refl

-- No token, neither by the flag nor by the environment.
abbrev pub NoToken : (Str → Str) → Flags → Type 0
NoToken getenv flags = (flags.token ≡ []) × (getenv (bytes "GRATIS_TOKEN") ≡ [])

settings-none :
    (getenv : Str → Str) (flags : Flags) → settings getenv flags ≡ none → NoToken getenv flags
unfolding settings
settings-none getenv flags h =
    (flag_or_env-nil flags.token (getenv (bytes "GRATIS_TOKEN"))).0
      ((str_eq_iff _ []).0 (ground arith))

settings-NoToken :
    (getenv : Str → Str) (flags : Flags) → NoToken getenv flags → settings getenv flags ≡ none
unfolding settings
settings-NoToken getenv flags h =
    let e = (flag_or_env-nil flags.token (getenv (bytes "GRATIS_TOKEN"))).1 h in
    let e' = (str_eq_iff (flag_or_env flags.token (getenv (bytes "GRATIS_TOKEN"))) []).1 e in
    rw e' refl

settings-some :
    (getenv : Str → Str) (flags f : Flags)
    → settings getenv flags ≡ some f
    → (f.token ≢ [])
      × (f.pdns_url ≡ flags.pdns_url)
      × (f.pdns_key ≡ flag_or_env flags.pdns_key (getenv (bytes "GRATIS_PDNS_KEY")))
unfolding settings
settings-some getenv flags f h =
    elim (Bool-cases (str_eq (flag_or_env flags.token (getenv (bytes "GRATIS_TOKEN"))) [])) [
      | inl e ↦ absurd (ground (arith, e, h))
      | inr e ↦
          let q : f ≡ record flags {
            token = flag_or_env flags.token (getenv (bytes "GRATIS_TOKEN"));
            pdns_key = flag_or_env flags.pdns_key (getenv (bytes "GRATIS_PDNS_KEY"));
          } =
            ground (arith, e, h) in
          (
            λ gone. str_eq-not_nil _ e (sym (ap (λ (x : Flags). x.token) q) ∙ gone),
            ap (λ (x : Flags). x.pdns_url) q,
            ap (λ (x : Flags). x.pdns_key) q,
          )
    ]

dns_client-none : (url key : Str) → (dns_client url key ≡ none) ↔ ((url ≡ []) ⊎ (key ≡ []))
unfolding dns_client str_eq
dns_client-none [] key = (λ h. inl refl, λ h. refl)
dns_client-none (c ∷ url) [] = (λ h. inr refl, λ h. refl)
dns_client-none (c ∷ url) (d ∷ key) = (λ h. cc h, λ h. elim h [ inl e ↦ cc e | inr e ↦ cc e ])

-- The start of the agent never fails: it is the exit for a missing token, made before any call to
-- the host, exactly where neither the flag nor GRATIS_TOKEN holds a token, and an agent otherwise.
pub start_agent-exits_iff :
    (env : Env) (getenv : Str → Str) (flags : Flags) (t : Trace)
    → (NoToken getenv flags × (start_agent env getenv flags t ≡ (ok none, t)))
      ⊎ (¬ NoToken getenv flags
          × ((a : Agent) × ((start_agent env getenv flags t).0 ≡ ok (some a)) × (a.token ≢ [])))
start_agent-exits_iff env getenv flags t = elim (Option-cases (settings getenv flags)) [
  | inl e ↦ inl (settings-none getenv flags e, start_agent-none env getenv flags t e)
  | inr (f, e) ↦
      let m = start_agent-some env getenv flags f t e in
      inr (
        λ gone. ground (arith, e, settings-NoToken getenv flags gone),
        (_, ap (λ x. x.0) m.agent, (settings-some getenv flags f e).0),
      )
]

-- An agent that is started has the email manager only beside the database manager, and it has the
-- DNS client exactly where it has a URL, and a key by the flag or by GRATIS_PDNS_KEY.
start_agent-managers :
    (env : Env) (getenv : Str → Str) (flags : Flags) (t : Trace) (a : Agent)
    → (start_agent env getenv flags t).0 ≡ ok (some a)
    → (a.dispatcher.email ≡ true → a.dispatcher.db ≡ true)
      × ((a.dispatcher.dns ≡ none) ↔ (
          (flags.pdns_url ≡ [])
          ⊎ ((flags.pdns_key ≡ []) × (getenv (bytes "GRATIS_PDNS_KEY") ≡ []))))
start_agent-managers env getenv flags t a h = elim (Option-cases (settings getenv flags)) [
  | inl e ↦ absurd (cc (h, start_agent-none env getenv flags t e))
  | inr (f, e) ↦
      let m = start_agent-some env getenv flags f t e in
      let (_, url, key) = settings-some getenv flags f e in
      let d : a.dispatcher
          ≡ record { db = m.db; dns = dns_client f.pdns_url f.pdns_key; email = m.email } =
        cc (h, m.agent) in
      let (absent, present) = dns_client-none f.pdns_url f.pdns_key in
      let (empty, full) = flag_or_env-nil flags.pdns_key (getenv (bytes "GRATIS_PDNS_KEY")) in
      (
        λ mail. cc (d, m.mail_needs_database (cc (d, mail))),
        (
          λ gone. elim (absent (cc (d, gone))) [
            | inl p ↦ inl (sym url ∙ p)
            | inr p ↦ inr (empty (sym key ∙ p))
          ],
          λ missing.
              ap (λ (x : Dispatcher). x.dns) d
              ∙ present (elim missing [ inl p ↦ inl (url ∙ p) | inr p ↦ inr (key ∙ full p) ]),
        ),
      )
]
