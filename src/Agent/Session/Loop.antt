-- ===== src/Agent/Session/Loop.antt =====
-- agent/internal/rpc/agent.go: `session` and `Run`, as functions of what their selects take in turn.
-- What is sampled for a heartbeat, and what gRPC answers, stands in these events.
use gratis.Base.{if◌then◌else◌}
use gratis.Agent.Dispatch.{Dispatcher}
use gratis.Text.{Str}
use gratis.Agent.Session.Turns.{panics, Turn}
use gratis.Host.{wrapf, err, ok, Error, Result}
use gratis.Proto.{command, Command, Heartbeat, ServerMessage}
use gratis.Agent.Metrics.{LoadAvg, DiskInfo, MemInfo, CpuSample, Floats}
use gratis.Agent.Session.{build_heartbeat}
use gratis.Base.{
  inr, inl, ◌⊎◌, Bool-cases, true, false, Bool, ◌∙◌, ap, refl, ◌↔◌, ◌≡◌, some, ◌++◌, none, List,
  Option, ◌∷◌, [],
}

pub record Samples (fl : Floats) : Type 0 where
  pub cpu : Result CpuSample
  pub mem : Result MemInfo
  pub disk : Result DiskInfo
  pub load : Result (LoadAvg fl.Float)

-- One case that the select of `session` takes.
pub data Event (fl : Floats) : Type 0 where
  -- ctx.Done()
  cancelled : Event fl
  -- recvErr
  receive_fails : Error → Event fl
  -- the ticker, and the failure of Send
  ticks : Samples fl → Option Error → Event fl
  -- recv
  receives : ServerMessage → Event fl
  -- no case of the select: a goroutine of `handleCommand` comes to its Dispatch meanwhile
  runs : Turn → Event fl

-- A session so far: what it has returned, if it has, whether a goroutine has panicked, the sample that the agent keeps, the heartbeats
-- handed to Send and the commands handed to handleCommand, oldest first.
pub record Session (fl : Floats) : Type 0 where
  pub returned : Option (Result (Unit {0}))
  pub panicked : Bool
  pub last_cpu : CpuSample
  pub heartbeats : List (Heartbeat fl.Float)
  pub commands : List Command

-- The type switch on a message: only a command has a case.
abbrev pub command_in : ServerMessage → List Command
command_in (command c) = c ∷ []
command_in _ = []

module _ {fl : Floats} where
  abbrev pub beat : CpuSample → Samples fl → Heartbeat fl.Float × CpuSample
  beat last x = build_heartbeat fl last x.cpu x.mem x.disk x.load

  abbrev pub returning : Result (Unit {0}) → CpuSample → List (Heartbeat fl.Float) → Session fl
  returning r last beats = record {
    returned = some r;
    panicked = false;
    last_cpu = last;
    heartbeats = beats;
    commands = [];
  }

  -- No event is left; the process is at its end where a goroutine has panicked.
  abbrev pub left : Bool → CpuSample → Session fl
  left panicked last = record {
    returned = none;
    panicked = panicked;
    last_cpu = last;
    heartbeats = [];
    commands = [];
  }

  module _ (wide : Str → Str) (d : Dispatcher) where
    -- `session`, with the commands handed on by the sessions so far, and the sample that the agent has
    -- kept.
    unfoldable pub session : List Command → CpuSample → List (Event fl) → Session fl
    session started last [] = left false last
    session started last (cancelled ∷ events) = returning (ok tt) last []
    session started last (receive_fails e ∷ events) =
        returning (err (wrapf "stream recv: %w" [] e [])) last []
    session started last (ticks x (some e) ∷ events) =
        let (h, cur) = beat last x in
        returning (err (wrapf "send heartbeat: %w" [] e [])) cur (h ∷ [])
    session started last (ticks x none ∷ events) =
        let (h, cur) = beat last x in
        let after = session started cur events in record after { heartbeats = h ∷ after.heartbeats }
    session started last (receives m ∷ events) =
        let after = session (started ++ command_in m) last events in
        record after { commands = command_in m ++ after.commands }
    session started last (runs turn ∷ events) =
        let after = session started last events in
        if panics wide d started turn then left true last else after

    -- The session goes on behind all these events.
    abbrev pub GoesOn : List Command → List (Event fl) → Type 0
    GoesOn started [] = Unit {0}
    GoesOn started (ticks x none ∷ events) = GoesOn started events
    GoesOn started (receives m ∷ events) = GoesOn (started ++ command_in m) events
    GoesOn started (runs turn ∷ events) =
        (panics wide d started turn ≡ false) × GoesOn started events
    GoesOn started (_ ∷ events) = ⊥

    -- The session goes on until a goroutine panics.
    abbrev pub Crashed : List Command → List (Event fl) → Type 0
    Crashed started [] = ⊥
    Crashed started (ticks x none ∷ events) = Crashed started events
    Crashed started (receives m ∷ events) = Crashed (started ++ command_in m) events
    Crashed started (runs turn ∷ events) =
        (panics wide d started turn ≡ true)
        ⊎ ((panics wide d started turn ≡ false) × Crashed started events)
    Crashed started (_ ∷ events) = ⊥

    -- The commands among the messages taken.
    abbrev pub commands_of : List (Event fl) → List Command
    commands_of [] = []
    commands_of (receives m ∷ events) = command_in m ++ commands_of events
    commands_of (e ∷ events) = commands_of events

    pub session-runs_iff :
        (started : List Command) (last : CpuSample) (events : List (Event fl))
        → (((session started last events).panicked ≡ false)
            × ((session started last events).returned ≡ none))
          ↔ GoesOn started events
    unfolding session
    session-runs_iff started last [] = (λ h. tt, λ h. (refl, refl))
    session-runs_iff started last (cancelled ∷ events) = (λ h. cc h.1, λ h. elim h [ ])
    session-runs_iff started last (receive_fails e ∷ events) = (λ h. cc h.1, λ h. elim h [ ])
    session-runs_iff started last (ticks x (some e) ∷ events) = (λ h. cc h.1, λ h. elim h [ ])
    session-runs_iff started last (ticks x none ∷ events) =
        session-runs_iff started (beat last x).1 events
    session-runs_iff started last (receives m ∷ events) =
        session-runs_iff (started ++ command_in m) last events
    session-runs_iff started last (runs turn ∷ events) =
        let (forth, back) = session-runs_iff started last events in
        elim (Bool-cases (panics wide d started turn)) [
          | inl p ↦ rw p (λ h. cc h.0, λ h. cc h.0)
          | inr p ↦ rw p (λ h. (refl, forth h), λ (_, h). back h)
        ]

    pub session-panics_iff :
        (started : List Command) (last : CpuSample) (events : List (Event fl))
        → ((session started last events).panicked ≡ true) ↔ Crashed started events
    unfolding session
    session-panics_iff started last [] = (λ h. cc h, λ h. elim h [ ])
    session-panics_iff started last (cancelled ∷ events) = (λ h. cc h, λ h. elim h [ ])
    session-panics_iff started last (receive_fails e ∷ events) = (λ h. cc h, λ h. elim h [ ])
    session-panics_iff started last (ticks x (some e) ∷ events) = (λ h. cc h, λ h. elim h [ ])
    session-panics_iff started last (ticks x none ∷ events) =
        session-panics_iff started (beat last x).1 events
    session-panics_iff started last (receives m ∷ events) =
        session-panics_iff (started ++ command_in m) last events
    session-panics_iff started last (runs turn ∷ events) =
        let (forth, back) = session-panics_iff started last events in
        elim (Bool-cases (panics wide d started turn)) [
          | inl p ↦ rw p (λ h. inl refl, λ h. refl)
          | inr p ↦
              rw p (λ h. inr (refl, forth h), λ h. elim h [ inl q ↦ cc q | inr (_, c) ↦ back c ])
        ]

    session_cancelled :
        (started : List Command) (last : CpuSample) (before after : List (Event fl))
        → GoesOn started before
        → (session started last (before ++ cancelled ∷ after)).returned ≡ some (ok tt)
    unfolding session
    session_cancelled started last [] after h = refl
    session_cancelled started last (cancelled ∷ before) after h = elim h [ ]
    session_cancelled started last (receive_fails e ∷ before) after h = elim h [ ]
    session_cancelled started last (ticks x (some e) ∷ before) after h = elim h [ ]
    session_cancelled started last (ticks x none ∷ before) after h =
        session_cancelled started (beat last x).1 before after h
    session_cancelled started last (receives m ∷ before) after h =
        session_cancelled (started ++ command_in m) last before after h
    session_cancelled started last (runs turn ∷ before) after (p, h) =
        rw p (session_cancelled started last before after h)

    -- Where the events are, until the session is cancelled.
    abbrev pub Cancelled : List Command → CpuSample → List (Event fl) → Type 0
    Cancelled started last events =
        (before after : List (Event fl)) × (events ≡ before ++ cancelled ∷ after)
        × GoesOn started before
        × ((session started last events).commands ≡ commands_of before)

    session_taken :
        (started : List Command) (last : CpuSample) (events : List (Event fl))
        → (session started last events).returned ≡ some (ok tt)
        → Cancelled started last events
    unfolding session
    session_taken started last [] h = cc h
    session_taken started last (cancelled ∷ events) h = ([], events, refl, tt, refl)
    session_taken started last (receive_fails e ∷ events) h = cc h
    session_taken started last (ticks x (some e) ∷ events) h = cc h
    session_taken started last (ticks x none ∷ events) h =
        let (before, after, e, g, c) = session_taken started (beat last x).1 events h in
        (ticks x none ∷ before, after, ap (λ l. ticks x none ∷ l) e, g, c)
    session_taken started last (receives m ∷ events) h =
        let (before, after, e, g, c) = session_taken (started ++ command_in m) last events h in
        (receives m ∷ before, after, ap (λ l. receives m ∷ l) e, g, ap (λ l. command_in m ++ l) c)
    session_taken started last (runs turn ∷ events) h =
        elim (Bool-cases (panics wide d started turn)) [
          | inl p ↦ let k = rw p at h in cc k
          | inr p ↦
              let k : (session started last events).returned ≡ some (ok tt) = rw p at h in
              let (before, after, e, g, c) = session_taken started last events k in
              (runs turn ∷ before, after, ap (λ l. runs turn ∷ l) e, (p, g), rw p c)
        ]

    -- The session of the agent returns without an error exactly where its context is cancelled before
    -- anything fails and before a goroutine panics, and it has then handed on the commands among the
    -- messages before, in their order.
    pub session-ok_iff :
        (started : List Command) (last : CpuSample) (events : List (Event fl))
        → ((session started last events).returned ≡ some (ok tt)) ↔ Cancelled started last events
    session-ok_iff started last events = (
      λ h. session_taken started last events h,
      λ (before, after, e, g, c).
          ap (λ l. (session started last l).returned) e
          ∙ session_cancelled started last before after g,
    )
