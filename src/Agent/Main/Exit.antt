-- ===== src/Agent/Main/Exit.antt =====
-- agent/cmd/agent/main.go from its begin to its exit, with `Run` of agent/internal/rpc/agent.go.
use gratis.Agent.Session.Turns.{panics_iff, IsFatal, panics, Turn}
use gratis.Proto.{Command}
use gratis.Agent.Dispatch.{Dispatcher}
use gratis.Settings.{flag_or_env}
use gratis.Agent.Main.Managers.{start_agent-some, start_agent-none, start_agent-exits_iff, NoToken}
use gratis.Agent.Main.{settings, start_agent, Flags, Agent}
use gratis.Host.{ok, err, Trace, Result, Env}
use gratis.Text.{bytes, str_eq, Str}
use gratis.Agent.Metrics.{Floats, CpuSample}
use gratis.Agent.Session.Run.{
  returns, crashes, Crashes, Outcome, run_agent-ends_iff, Stops, run_agent, Round,
}
use gratis.Base.{
  true, [], subst, ◌∙◌, sym, Bool-cases, ap, refl, arith, inr, inl, Option-cases, ◌⊎◌, none, ◌↔◌,
  ◌≡◌, some, ℕ, List, Option,
}

-- A Go program whose goroutine panics exits with 2.
abbrev status_of : Option Outcome → Option ℕ
status_of none = none
status_of (some (returns (ok u))) = some 0
status_of (some (returns (err e))) = some 1
status_of (some crashes) = some 2

-- What NewAgent leaves in lastCPU.
abbrev pub no_sample : CpuSample
no_sample = record { idle = 0; total = 0 }

settings-api :
    (getenv : Str → Str) (flags f : Flags) → settings getenv flags ≡ some f → f.api ≡ flags.api
unfolding settings
settings-api getenv flags f h =
    elim (Bool-cases (str_eq (flag_or_env flags.token (getenv (bytes "GRATIS_TOKEN"))) [])) [
      | inl e ↦ absurd (ground (arith, e, h))
      | inr e ↦ ground (arith, e, h)
    ]

start_agent-api :
    (env : Env) (getenv : Str → Str) (flags : Flags) (t : Trace) (a : Agent)
    → (start_agent env getenv flags t).0 ≡ ok (some a)
    → a.api_addr ≡ flags.api
start_agent-api env getenv flags t a h = elim (Option-cases (settings getenv flags)) [
  | inl e ↦ absurd (cc (h, start_agent-none env getenv flags t e))
  | inr (f, e) ↦
      let m = start_agent-some env getenv flags f t e in
      let same : a.api_addr ≡ f.api = cc (h, m.agent) in same ∙ settings-api getenv flags f e
]

module _ {fl : Floats} (wide : Str → Str) where
  -- Run as main calls it.
  abbrev runs : Agent → List (Round fl) → Option Outcome
  runs a rounds = run_agent wide a.dispatcher a.api_addr [] no_sample rounds

  -- main, behind the start of the agent.
  started : List (Round fl) → Result (Option Agent) → Option ℕ
  started rounds (err e) = some 1
  started rounds (ok none) = some 1
  started rounds (ok (some a)) = status_of (runs a rounds)

  -- The exit status of the program; `none` is a program that goes on.
  pub exit_status : Env → (Str → Str) → Flags → Trace → List (Round fl) → Option ℕ
  unfolding started
  exit_status env getenv flags t rounds = started rounds (start_agent env getenv flags t).0

  -- How the rounds of an agent come to an exit.
  abbrev pub Exits : Dispatcher → Str → List (Round fl) → ℕ → Type 0
  Exits d api rounds code =
      ((code ≡ 0) × Stops wide d api [] no_sample rounds)
      ⊎ ((code ≡ 2) × Crashes wide d api [] no_sample rounds)

  status_of-Exits :
      (a : Agent) (rounds : List (Round fl)) (code : ℕ)
      → (status_of (runs a rounds) ≡ some code) ↔ Exits a.dispatcher a.api_addr rounds code
  status_of-Exits a rounds code =
      let ends = run_agent-ends_iff wide a.dispatcher a.api_addr [] no_sample rounds in
      (
        λ h. elim (Option-cases (runs a rounds)) [
          | inl e ↦ absurd (let k = rw e at h in cc k)
          | inr (o, e) ↦ elim ((ends o).0 e) [
            | inl (same, s) ↦ inl (let k = rw (e, same) at h in cc k, s)
            | inr (same, c) ↦ inr (let k = rw (e, same) at h in cc k, c)
          ]
        ],
        λ h. elim h [
          | inl (z, s) ↦ ap status_of ((ends (returns (ok tt))).1 (inl (refl, s))) ∙ ap some (sym z)
          | inr (z, c) ↦ ap status_of ((ends crashes).1 (inr (refl, c))) ∙ ap some (sym z)
        ],
      )

  exit_status-Exits :
      (env : Env) (getenv : Str → Str) (flags : Flags) (t : Trace) (rounds : List (Round fl))
      (code : ℕ)
      → (exit_status env getenv flags t rounds ≡ some code) ↔ (
          (NoToken getenv flags × (code ≡ 1))
          ⊎ (¬ NoToken getenv flags
              × ((a : Agent) × ((start_agent env getenv flags t).0 ≡ ok (some a))
                  × Exits a.dispatcher flags.api rounds code)))
  unfolding exit_status started
  exit_status-Exits env getenv flags t rounds code =
      elim (start_agent-exits_iff env getenv flags t) [
        | inl (gone, e) ↦ (
          λ h. inl (
            gone,
            (let e' : exit_status env getenv flags t rounds ≡ some 1 = rw (exit_status, e) refl in
                ground (arith, e', h)),
          ),
          λ h. elim h [
            | inl (g, c) ↦ rw (exit_status, e) (ap some (sym c))
            | inr (g, _) ↦ absurd (g gone)
          ],
        )
        | inr (there, (a, e, token)) ↦
            let at = start_agent-api env getenv flags t a e in
            let (forth, back) = status_of-Exits a rounds code in
            let same : exit_status env getenv flags t rounds ≡ status_of (runs a rounds) =
              rw (exit_status, e) refl in
            (
              λ h. inr (
                there,
                (a, e, subst (λ x. Exits a.dispatcher x rounds code) at (forth (sym same ∙ h))),
              ),
              λ h. elim h [
                | inl (g, c) ↦ absurd (there g)
                | inr (g, (b, e', s)) ↦
                    let which : b ≡ a = cc (e, e') in
                    let s' : Exits a.dispatcher flags.api rounds code =
                      subst (λ x. Exits x.dispatcher flags.api rounds code) which s in
                    same ∙ back (subst (λ x. Exits a.dispatcher x rounds code) (sym at) s')
              ],
            )
      ]

  -- The agent exits with 1 exactly where neither the flag nor GRATIS_TOKEN holds a token. With a token it
  -- exits with 0 exactly where a round of Run is stopped by a signal in its wait, and with 2 exactly
  -- where, before that, a goroutine panics in the Dispatch of a command that the agent received, with the
  -- managers with which it was started; and it goes on else. A goroutine panics exactly where its command
  -- is an upsert of no record, and the agent has a DNS client.
  pub exit_status_iff :
      (env : Env) (getenv : Str → Str) (flags : Flags) (t : Trace) (rounds : List (Round fl))
      (code : ℕ)
      → ((exit_status env getenv flags t rounds ≡ some code) ↔ (
          (NoToken getenv flags × (code ≡ 1))
          ⊎ (¬ NoToken getenv flags
              × ((a : Agent) × ((start_agent env getenv flags t).0 ≡ ok (some a))
                  × Exits a.dispatcher flags.api rounds code))))
        × ((d : Dispatcher) (sent : List Command) (turn : Turn)
            → (panics wide d sent turn ≡ true) ↔ IsFatal wide d sent turn)
  exit_status_iff env getenv flags t rounds code =
      (exit_status-Exits env getenv flags t rounds code, λ d sent turn. panics_iff wide d sent turn)
