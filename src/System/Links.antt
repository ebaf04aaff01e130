-- ===== src/System/Links.antt =====
-- What holds of one session, whatever the other sessions and the server do.
pub mod Moves
use gratis.Agent.Dispatch.Results.{dispatch_answers}
use gratis.System.Sessions.{
  read_up-eq-some, take_command-eq-some, enqueue-eq-some, fail_outbound-eq-some, read_down-eq-some,
  send_outbound-eq-some,
}
use gratis.System.Steps.{reads_up, beats, answers, takes, reads_down, sends, Move, Answers}
use gratis.System.{
  empty_link, fail_outbound, read_up, Phase, enqueue, take_command, ended, read_down, send_up,
  send_outbound, serving, Link, Issue,
}
use gratis.Text.{Str}
use gratis.Proto.{heartbeat, command_result, CommandResult, AgentMessage, Command}
use gratis.Base.{
  refl, ap, All-split, append_assoc, sym, All-map_pred, subst, ◌∙◌, ◌≤◌, length-append, true, some,
  arith, Bool, All-append, ◌≢◌, ◌+◌, All, Option, ◌++◌, ℕ, length, ◌≡◌, List, [], ◌∷◌,
}

-- A call of SendCommand issued the command.
abbrev pub Issued : (ℕ → Option Issue) → Command → Type 0
Issued issued c = (ch : ℕ) × (i : Issue) × (issued ch ≡ some i) × (i.command ≡ c)

-- A call of SendCommand issued it for this session, and its send is over.
abbrev pub Queued : (ℕ → Option Issue) → (ℕ → Bool) → ℕ → Command → Type 0
Queued issued queued conn c =
    (ch : ℕ) × (issued ch ≡ some (record { conn = conn; command = c })) × (queued ch ≡ true)

-- The result is Dispatch's answer to a command that was issued under its id.
abbrev pub Truthful : (Str → Str) → (ℕ → Option Issue) → CommandResult → Type 0
Truthful wide issued r =
    (c : Command) × Issued issued c × (c.command_id ≡ r.command_id) × Answers wide c r

module _ {Float : Type 0} where
  abbrev pub Honest : (Str → Str) → (ℕ → Option Issue) → AgentMessage Float → Type 0
  Honest wide issued (command_result r) = Truthful wide issued r
  Honest wide issued _ = Unit {0}

-- No two commands have one id.
abbrev pub Distinct : List Command → Type 0
Distinct [] = Unit {0}
Distinct (c ∷ cs) = All (λ d. d.command_id ≢ c.command_id) cs × Distinct cs

pub record IsSound {Float : Type 0} (wide : Str → Str) (issued : ℕ → Option Issue)
    (queued : ℕ → Bool) (conn : ℕ) (l : Link Float) : Type 0 where
  -- every command that was sent is in one place, in order
  pub pipeline : l.sent ≡ l.started ++ (l.inbox ++ (l.down ++ (l.lost ++ l.queue)))
  pub kept : l.phase ≡ serving → l.lost ≡ []
  pub queue_fits : length l.queue ≤ 32
  pub inbox_fits : length l.inbox ≤ 8
  pub outbox_fits : length l.outbox ≤ 8
  pub origin : All (Queued issued queued conn) l.sent
  pub working : All (Issued issued) l.running
  pub rising : All (Honest wide issued) l.up
  pub risen : All (Honest wide issued) l.outbox
  pub distinct : Distinct l.sent

-- More calls.
module _ (wide : Str → Str) {issued issued' : ℕ → Option Issue}
    (more : (ch : ℕ) (i : Issue) → issued ch ≡ some i → issued' ch ≡ some i) where
  Issued-mono : (c : Command) → Issued issued c → Issued issued' c
  Issued-mono c (ch, i, p, e) = (ch, i, more ch i p, e)

  pub Truthful-mono : (r : CommandResult) → Truthful wide issued r → Truthful wide issued' r
  Truthful-mono r (c, i, e, a) = (c, Issued-mono c i, e, a)

-- More calls, and more of them queued.
module _ {Float : Type 0} (wide : Str → Str) {issued issued' : ℕ → Option Issue}
    {queued queued' : ℕ → Bool}
    (more : (ch : ℕ) (i : Issue) → issued ch ≡ some i → issued' ch ≡ some i)
    (later : (ch : ℕ) → queued ch ≡ true → queued' ch ≡ true) where
  Honest-mono : (m : AgentMessage Float) → Honest wide issued m → Honest wide issued' m
  Honest-mono (command_result r) h = Truthful-mono wide more r h
  Honest-mono (AgentMessage.register r) h = tt
  Honest-mono (heartbeat r) h = tt
  Honest-mono (AgentMessage.log r) h = tt
  Honest-mono AgentMessage.empty h = tt

  pub IsSound-mono :
      (conn : ℕ) (l : Link Float)
      → IsSound wide issued queued conn l
      → IsSound wide issued' queued' conn l
  IsSound-mono conn l s = record {
    pipeline = s.pipeline;
    kept = s.kept;
    queue_fits = s.queue_fits;
    inbox_fits = s.inbox_fits;
    outbox_fits = s.outbox_fits;
    origin =
        All-map_pred (Queued issued queued conn) (Queued issued' queued' conn)
          (λ c (ch, p, q). (ch, more ch _ p, later ch q)) l.sent s.origin;
    working =
        All-map_pred (Issued issued) (Issued issued') (Issued-mono wide more) l.running s.working;
    rising = All-map_pred (Honest wide issued) (Honest wide issued') Honest-mono l.up s.rising;
    risen = All-map_pred (Honest wide issued) (Honest wide issued') Honest-mono l.outbox s.risen;
    distinct = s.distinct;
  }
