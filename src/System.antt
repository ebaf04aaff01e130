-- ===== src/System.antt =====
-- The two programs at work together: api/internal/grpc/server.go with its calls of SendCommand and
-- its sessions, and agent/internal/rpc/agent.go at the other end of each stream. A session is known
-- by a number, and so is a call of SendCommand, by its result channel. Every goroutine moves on its
-- own, one channel operation, one message or one critical section at a time. A message that a
-- goroutine has read while the channel behind it is full counts as still on the stream.
pub mod Steps
pub mod Sessions
pub mod Links
pub mod Refine
pub mod Invariant
pub mod Reached
pub mod Calls
pub mod Order
pub mod Stuck
pub mod Full
pub mod Drain
pub mod Idle
pub mod Complete
pub mod Tests
use gratis.Proto.{Command, AgentMessage}
use gratis.Api.Server.{State}
use gratis.Base.{
  arith, ◌≡◌, length, ◌==◌, ltb, ◌++◌, some, Bool, none, if◌then◌else◌, ℕ, List, Option, ◌∷◌, [],
}

-- A session has not begun, is served by handleSession, or has ended.
pub data Phase : Type 0 where
  fresh serving ended : Phase

-- One session: the channels at both ends of its stream, and the stream, each oldest first. `sent`,
-- `lost` and `started` are the history: what SendCommand put into the queue, what a failed Send of
-- handleSession took from it, and what the agent handed to handleCommand.
pub record Link (Float : Type 0) : Type 0 where
  pub phase : Phase
  pub sent : List Command
  -- agent.send of the server
  pub queue : List Command
  pub lost : List Command
  -- the stream to the agent, and recv of its session
  pub down : List Command
  pub inbox : List Command
  pub started : List Command
  -- the goroutines of handleCommand
  pub running : List Command
  -- the stream to the server, and recv of handleSession
  pub up : List (AgentMessage Float)
  pub outbox : List (AgentMessage Float)

-- A call of SendCommand: the session that it looked up, and its command with the new id.
pub record Issue : Type 0 where
  pub conn : ℕ
  pub command : Command

pub record System (Float : Type 0) : Type 0 where
  pub server : State Float
  pub links : ℕ → Link Float
  pub issued : ℕ → Option Issue
  -- the calls whose command is in the queue of its session, or beyond
  pub queued : ℕ → Bool

abbrev pub update {ℓ} : {A : Type ℓ} → (ℕ → A) → ℕ → A → ℕ → A
update f i a j = if i == j then a else f j

pub update-same {ℓ} : {A : Type ℓ} → (f : ℕ → A) (i : ℕ) (a : A) → update f i a i ≡ a
update-same f i a = ground arith

module _ {Float : Type 0} where
  abbrev pub empty_link : Phase → Link Float
  empty_link p = record {
    phase = p;
    sent = [];
    queue = [];
    lost = [];
    down = [];
    inbox = [];
    started = [];
    running = [];
    up = [];
    outbox = [];
  }

  -- `agent.send <- …` of SendCommand; `none` is a call that has to wait for a place.
  pub enqueue : Command → Link Float → Option (Link Float)
  enqueue c l =
      if ltb (length l.queue) 32
      then some (record l { queue = l.queue ++ c ∷ []; sent = l.sent ++ c ∷ [] })
      else none

  -- The case of handleSession for an outbound message, where Send succeeds.
  pub send_outbound : Link Float → Option (Link Float)
  send_outbound l = elim l.queue [
    | [] ↦ none
    | c ∷ rest ↦ some (record l { queue = rest; down = l.down ++ c ∷ [] })
  ]

  -- The same case, where Send fails: the session ends without the message.
  pub fail_outbound : Link Float → Option (Link Float)
  fail_outbound l = elim l.queue [
    | [] ↦ none
    | c ∷ rest ↦ some (record l { phase = ended; queue = rest; lost = l.lost ++ c ∷ [] })
  ]

  -- The goroutine of the agent's session that reads the stream.
  pub read_down : Link Float → Option (Link Float)
  read_down l = elim l.down [
    | [] ↦ none
    | c ∷ rest ↦
        if ltb (length l.inbox) 8
        then some (record l { down = rest; inbox = l.inbox ++ c ∷ [] })
        else none
  ]

  -- The case of the agent's session for a message.
  pub take_command : Link Float → Option (Link Float)
  take_command l = elim l.inbox [
    | [] ↦ none
    | c ∷ rest ↦
        some (record l { inbox = rest; started = l.started ++ c ∷ []; running = c ∷ l.running })
  ]

  -- stream.Send of the agent, by handleCommand and by the ticker's case.
  pub send_up : AgentMessage Float → Link Float → Link Float
  send_up m l = record l { up = l.up ++ m ∷ [] }

  -- The goroutine of handleSession that reads the stream.
  pub read_up : Link Float → Option (Link Float)
  read_up l = elim l.up [
    | [] ↦ none
    | m ∷ rest ↦
        if ltb (length l.outbox) 8
        then some (record l { up = rest; outbox = l.outbox ++ m ∷ [] })
        else none
  ]

  -- A new command of SendCommand, which has its session and stands in `pending`.
  pub issue : ℕ → Issue → State Float → System Float → System Float
  issue ch i v s = record s { server = v; issued = update s.issued ch (some i) }
