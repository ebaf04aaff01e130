-- ===== src/Agent/Session/Run.antt =====
-- agent/internal/rpc/agent.go: `connect` with its session, and `Run`, round by round.
use gratis.Agent.Session.Loop.{
  Event, session-panics_iff, session-runs_iff, left, returning, GoesOn, session, Crashed, Session,
}
use gratis.Proto.{Command}
use gratis.Agent.Session.{connect, Wire}
use gratis.Agent.Session.Turns.{all_quiet, Turn}
use gratis.Agent.Dispatch.{Dispatcher}
use gratis.Text.{Str}
use gratis.Host.{Result-cases, err, ok, Result}
use gratis.Agent.Metrics.{CpuSample, Floats}
use gratis.Base.{
  sym, refl, ◌↔◌, Option-cases, ◌∙◌, ap, not, inl, some, false, true, inr, none, ◌≡◌, Bool, ◌++◌,
  Bool-cases, Option, ◌⊎◌, List, ◌∷◌, [], if◌then◌else◌,
}

-- One round of Run: what gRPC answers, what the session takes, whether the wait behind it ends by
-- ctx.Done() and not by the delay, and the goroutines of the sessions before that come to their
-- Dispatch while the agent connects, and while it waits.
pub record Round (fl : Floats) : Type 0 where
  pub meanwhile : List Turn
  pub wire : Wire
  pub events : List (Event fl)
  pub waiting : List Turn
  pub stopped : Bool

-- How Run comes to its end: it returns, or a goroutine's panic ends the process.
pub data Outcome : Type 0 where
  returns : Result (Unit {0}) → Outcome
  crashes : Outcome

module _ {fl : Floats} (wide : Str → Str) (d : Dispatcher) (api_addr : Str) where
  -- `connect` from its begin to its end.
  pub connect_session : List Command → CpuSample → Round fl → Session fl
  connect_session started last r =
      if all_quiet wide d started r.meanwhile
      then elim (connect api_addr r.wire) [
        | err e ↦ returning (err e) last []
        | ok u ↦ session wide d started last r.events
      ]
      else left true last

  -- Run: `none` is a loop that has not come to its end. The sample of the CPU is kept over the rounds,
  -- and goroutines outlive their session.
  pub run_agent : List Command → CpuSample → List (Round fl) → Option Outcome
  unfolding connect_session
  run_agent started last [] = none
  run_agent started last (r ∷ rounds) =
      let s = connect_session started last r in
      let started' = started ++ s.commands in
      let later = run_agent started' s.last_cpu rounds in
      if s.panicked then some crashes else elim s.returned [
        | none ↦ none
        | some x ↦
            if not (all_quiet wide d started' r.waiting)
            then some crashes
            else if r.stopped
            then some (returns (ok tt))
            else later
      ]

  -- The session of the round is reached, and does so.
  abbrev pub InSession :
      List Command → Round fl → (List Command → List (Event fl) → Type 0) → Type 0
  InSession started r P = (connect api_addr r.wire ≡ ok tt) × P started r.events

  -- The round comes to its wait: no goroutine panics before it, and the handshake fails or some case
  -- of the session ends it.
  abbrev pub Ends : List Command → Round fl → Type 0
  Ends started r =
      (all_quiet wide d started r.meanwhile ≡ true)
      × ¬ InSession started r (GoesOn wide d)
      × ¬ InSession started r (Crashed wide d)

  -- A goroutine panics before the wait.
  abbrev pub Breaks : List Command → Round fl → Type 0
  Breaks started r =
      (all_quiet wide d started r.meanwhile ≡ false)
      ⊎ ((all_quiet wide d started r.meanwhile ≡ true) × InSession started r (Crashed wide d))

  -- The commands handed on by a round, after those before.
  abbrev pub handed : List Command → CpuSample → Round fl → List Command
  handed started last r = started ++ (connect_session started last r).commands

  -- Every round before has come to its wait, with no panic and not stopped in it, and this one comes to
  -- its wait and is stopped there.
  abbrev pub Stops : List Command → CpuSample → List (Round fl) → Type 0
  Stops started last [] = ⊥
  Stops started last (r ∷ rounds) =
      Ends started r
      × (all_quiet wide d (handed started last r) r.waiting ≡ true)
      × ((r.stopped ≡ true)
          ⊎ ((r.stopped ≡ false)
              × Stops (handed started last r) (connect_session started last r).last_cpu rounds))

  -- Every round before has come to its wait, with no panic and not stopped in it, and in this one a
  -- goroutine panics, before its wait or in it.
  abbrev pub Crashes : List Command → CpuSample → List (Round fl) → Type 0
  Crashes started last [] = ⊥
  Crashes started last (r ∷ rounds) =
      Breaks started r
      ⊎ (Ends started r
          × ((all_quiet wide d (handed started last r) r.waiting ≡ false)
              ⊎ ((all_quiet wide d (handed started last r) r.waiting ≡ true)
                  × (r.stopped ≡ false)
                  × Crashes (handed started last r) (connect_session started last r).last_cpu
                      rounds)))

  -- What a round comes to: its wait, a panic before it, or neither so far.
  Comes : List Command → CpuSample → Round fl → Type 0
  Comes started last r =
      (Breaks started r × ((connect_session started last r).panicked ≡ true))
      ⊎ ((InSession started r (GoesOn wide d)
            × ((connect_session started last r).panicked ≡ false)
            × ((connect_session started last r).returned ≡ none)
            × (all_quiet wide d started r.meanwhile ≡ true))
          ⊎ (Ends started r
              × ((connect_session started last r).panicked ≡ false)
              × ((x : Result (Unit {0})) × ((connect_session started last r).returned ≡ some x))))

  session-Comes :
      (started : List Command) (last : CpuSample) (r : Round fl)
      → all_quiet wide d started r.meanwhile ≡ true
      → connect api_addr r.wire ≡ ok tt
      → Comes started last r
  unfolding Comes connect_session
  session-Comes started last r q c =
      let s = session wide d started last r.events in
      let same : connect_session started last r ≡ s = rw (connect_session, q, c) refl in
      let (runs, goes) = session-runs_iff wide d started last r.events in
      let (dies, breaks) = session-panics_iff wide d started last r.events in
      elim (Bool-cases s.panicked) [
        | inl p ↦ inl (inr (q, (c, dies p)), ap (λ u. u.panicked) same ∙ p)
        | inr p ↦ elim (Option-cases s.returned) [
          | inl n ↦ inr (
              inl
                ((c, runs (p, n)), ap (λ u. u.panicked) same ∙ p, ap (λ u. u.returned) same ∙ n, q))
          | inr (x, n) ↦ inr (
              inr (
                (
                  q,
                  λ (_, g). let (_, k) = goes g in cc (k, n),
                  λ (_, b). let k = breaks b in cc (k, p),
                ),
                ap (λ u. u.panicked) same ∙ p,
                (x, ap (λ u. u.returned) same ∙ n),
              ))
        ]
      ]

  round-Comes : (started : List Command) (last : CpuSample) (r : Round fl) → Comes started last r
  unfolding Comes connect_session
  round-Comes started last r = elim (Bool-cases (all_quiet wide d started r.meanwhile)) [
    | inr q ↦ inl (inl q, rw (connect_session, q) refl)
    | inl q ↦ elim (Result-cases (connect api_addr r.wire)) [
      | inr (u, c) ↦ session-Comes started last r q c
      | inl (e, c) ↦
          let same : connect_session started last r ≡ returning (err e) last [] =
            rw (connect_session, q, c) refl in
          inr (
            inr (
              (q, λ (k, _). cc (k, c), λ (k, _). cc (k, c)),
              ap (λ s. s.panicked) same,
              (err e, ap (λ s. s.returned) same),
            ))
    ]
  ]

  Ends-returned :
      (started : List Command) (last : CpuSample) (r : Round fl)
      → Ends started r
      → (x : Result (Unit {0})) × ((connect_session started last r).panicked ≡ false)
        × ((connect_session started last r).returned ≡ some x)
  unfolding Comes
  Ends-returned started last r (q, on, dies) = elim (round-Comes started last r) [
    | inl (inl loud, p) ↦ absurd (cc (q, loud))
    | inl (inr (_, b), p) ↦ absurd (dies b)
    | inr (inl (g, _, _, _)) ↦ absurd (on g)
    | inr (inr (_, p, (x, n))) ↦ (x, p, n)
  ]

  Breaks-panicked :
      (started : List Command) (last : CpuSample) (r : Round fl)
      → Breaks started r
      → (connect_session started last r).panicked ≡ true
  unfolding connect_session
  Breaks-panicked started last r (inl loud) = rw (connect_session, loud) refl
  Breaks-panicked started last r (inr (q, (c, b))) =
      rw (connect_session, q, c) ((session-panics_iff wide d started last r.events).1 b)

  run_agent-Stops :
      (started : List Command) (last : CpuSample) (rounds : List (Round fl))
      → Stops started last rounds
      → run_agent started last rounds ≡ some (returns (ok tt))
  unfolding run_agent
  run_agent-Stops started last [] h = elim h [ ]
  run_agent-Stops started last (r ∷ rounds) (ends, quiet, h) =
      let (x, p, n) = Ends-returned started last r ends in
      elim h [
        | inl s ↦ rw (run_agent, p, n, quiet, s) refl
        | inr (s, later) ↦
            rw (run_agent, p, n, quiet, s)
              (run_agent-Stops (handed started last r) (connect_session started last r).last_cpu
                rounds later)
      ]

  run_agent-Crashes :
      (started : List Command) (last : CpuSample) (rounds : List (Round fl))
      → Crashes started last rounds
      → run_agent started last rounds ≡ some crashes
  unfolding run_agent
  run_agent-Crashes started last [] h = elim h [ ]
  run_agent-Crashes started last (r ∷ rounds) (inl b) =
      let p = Breaks-panicked started last r b in rw (run_agent, p) refl
  run_agent-Crashes started last (r ∷ rounds) (inr (ends, h)) =
      let (x, p, n) = Ends-returned started last r ends in
      elim h [
        | inl loud ↦ rw (run_agent, p, n, loud) refl
        | inr (quiet, s, later) ↦
            rw (run_agent, p, n, quiet, s)
              (run_agent-Crashes (handed started last r) (connect_session started last r).last_cpu
                rounds later)
      ]

  -- How Run may end.
  abbrev pub Ending : List Command → CpuSample → List (Round fl) → Outcome → Type 0
  Ending started last rounds o =
      ((o ≡ returns (ok tt)) × Stops started last rounds)
      ⊎ ((o ≡ crashes) × Crashes started last rounds)

  run_agent_taken :
      (started : List Command) (last : CpuSample) (rounds : List (Round fl)) (o : Outcome)
      → run_agent started last rounds ≡ some o
      → Ending started last rounds o
  unfolding run_agent Comes
  run_agent_taken started last [] o h = cc h
  run_agent_taken started last (r ∷ rounds) o h = elim (round-Comes started last r) [
    | inl (b, p) ↦ inr (let k = rw (run_agent, p) at h in cc k, inl b)
    | inr (inl (_, p, n, _)) ↦ absurd (let k = rw (run_agent, p, n) at h in cc k)
    | inr (inr (ends, p, (x, n))) ↦
        elim (Bool-cases (all_quiet wide d (handed started last r) r.waiting)) [
          | inr loud ↦ inr (let k = rw (run_agent, p, n, loud) at h in cc k, inr (ends, inl loud))
          | inl quiet ↦ elim (Bool-cases r.stopped) [
            | inl s ↦
                inl (let k = rw (run_agent, p, n, quiet, s) at h in cc k, (ends, quiet, inl s))
            | inr s ↦
                let k : run_agent (handed started last r) (connect_session started last r).last_cpu
                      rounds
                    ≡ some o =
                  rw (run_agent, p, n, quiet, s) at h in
                elim (run_agent_taken (handed started last r)
                  (connect_session started last r).last_cpu rounds o k) [
                    | inl (e, st) ↦ inl (e, (ends, quiet, inr (s, st)))
                    | inr (e, cr) ↦ inr (e, inr (ends, inr (quiet, s, cr)))
                  ]
          ]
        ]
  ]

  -- Run returns exactly where a round is stopped in its wait, and then without an error; a goroutine's
  -- panic ends it exactly where a command handed on by a round before makes Dispatch panic first; and
  -- it goes on else.
  pub run_agent-ends_iff :
      (started : List Command) (last : CpuSample) (rounds : List (Round fl)) (o : Outcome)
      → (run_agent started last rounds ≡ some o) ↔ Ending started last rounds o
  run_agent-ends_iff started last rounds o = (
    λ h. run_agent_taken started last rounds o h,
    λ h. elim h [
      | inl (e, s) ↦ run_agent-Stops started last rounds s ∙ ap some (sym e)
      | inr (e, c) ↦ run_agent-Crashes started last rounds c ∙ ap some (sym e)
    ],
  )
