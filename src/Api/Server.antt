-- ===== src/Api/Server.antt =====
-- api/internal/grpc/server.go: the agents that are connected, and the commands that wait for their
-- results. Each operation is one critical section under the mutex, or one channel operation.
-- Sessions, and the result channels of SendCommand, go by numbers.
pub mod Steps
pub mod Pending
pub mod Sessions
pub mod Entries
pub mod Online
pub mod Waiters
pub mod Tests
use gratis.Host.{message, ok, errorf, err, Result}
use gratis.Text.{str_keys, Str}
use gratis.Proto.{
  RegisterResponse, empty, register, log, command_result, SystemMetrics, heartbeat, AgentMessage,
  Heartbeat, CommandResult,
}
use gratis.Base.{
  true, false, none, some, lookup, nat_keys, Option, insert, delete, List, ℕ, ◌∷◌, [],
}

-- connectedAgent; `stream` and `send` are the session's own and go by its number.
pub record ConnectedAgent (Float : Type 0) : Type 0 where
  pub server_id : Str
  pub hostname : Str
  pub last_metrics : Option (SystemMetrics Float)
  pub last_seen : Option ℕ

-- A call of SendCommand that waits, and what its channel of capacity 1 holds.
pub record Waiter : Type 0 where
  pub command_id : Str
  pub buffered : Option CommandResult

pub record State (Float : Type 0) : Type 0 where
  -- the map of the server: from a server's id to a session
  pub agents : List (Str × ℕ)
  -- the map of the server: from a command's id to a result channel
  pub pending : List (Str × ℕ)
  -- the sessions that are open
  pub sessions : List (ℕ × ConnectedAgent Float)
  -- the calls of SendCommand that have not returned
  pub waiters : List (ℕ × Waiter)
  -- the ids given to commands so far
  pub used : List Str

-- What Connect answers to a RegisterRequest, by what authenticate gives.
unfoldable pub connect_reply : Result Str → RegisterResponse
connect_reply (err e) = record { accepted = false; server_id = []; message = message e }
connect_reply (ok server_id) = record { accepted = true; server_id = server_id; message = [] }

module _ {Float : Type 0} where
  -- registerAgent, for the session `conn`
  unfoldable pub register_agent : ℕ → ConnectedAgent Float → State Float → State Float
  register_agent conn a s = record s {
    agents = insert str_keys a.server_id conn s.agents;
    sessions = insert nat_keys conn a s.sessions;
  }

  -- unregisterAgent, as the session `conn` of this server ends
  unfoldable pub unregister_agent : ℕ → Str → State Float → State Float
  unregister_agent conn server_id s = record s {
    agents = delete str_keys server_id s.agents;
    sessions = delete nat_keys conn s.sessions;
  }

  -- A heartbeat is stored with the session that it came by.
  pub note_heartbeat : ℕ → ℕ → Heartbeat Float → State Float → State Float
  note_heartbeat conn now h s = elim (lookup nat_keys conn s.sessions) [
    | none ↦ s
    | some a ↦ record s {
      sessions =
          insert nat_keys conn (record a { last_metrics = h.metrics; last_seen = some now })
            s.sessions;
    }
  ]

  -- `ch <- result`: the channel holds one value, and a second send waits for ever (`none`).
  unfoldable pub deliver : ℕ → CommandResult → State Float → Option (State Float)
  deliver ch r s = elim (lookup nat_keys ch s.waiters) [
    -- nobody waits any more: the channel is garbage with its value
    | none ↦ some s
    | some w ↦ elim w.buffered [
      | none ↦
          some
            (record s { waiters = insert nat_keys ch (record w { buffered = some r }) s.waiters })
      | some old ↦ none
    ]
  ]

  -- The branch of handleAgentMessage for a result.
  unfoldable pub take_result : CommandResult → State Float → Option (State Float)
  unfolding deliver
  take_result r s = elim (lookup str_keys r.command_id s.pending) [
    | none ↦ some s
    | some ch ↦ deliver ch r (record s { pending = delete str_keys r.command_id s.pending })
  ]

  unfoldable pub handle_agent_message :
      ℕ → ℕ → AgentMessage Float → State Float → Option (State Float)
  unfolding note_heartbeat take_result
  handle_agent_message conn now (heartbeat h) s = some (note_heartbeat conn now h s)
  handle_agent_message conn now (command_result r) s = take_result r s
  handle_agent_message conn now (log l) s = some s
  handle_agent_message conn now (register r) s = some s
  handle_agent_message conn now empty s = some s

  -- SendCommand up to its wait: the session to send by, or an error. `id` is the new UUID.
  unfoldable pub start_command : Str → Str → ℕ → State Float → Result (ℕ × State Float)
  start_command server_id id ch s = elim (lookup str_keys server_id s.agents) [
    | none ↦ err (errorf "server %q not connected" (server_id ∷ []))
    | some conn ↦ ok (
      conn,
      record s {
        pending = insert str_keys id ch s.pending;
        waiters = insert nat_keys ch (record { command_id = id; buffered = none }) s.waiters;
        used = id ∷ s.used;
      },
    )
  ]

  -- The two ends of the wait: a result was there, or the time is over.
  unfoldable pub return_result : ℕ → State Float → State Float
  return_result ch s = record s { waiters = delete nat_keys ch s.waiters }

  unfoldable pub give_up : ℕ → Str → State Float → State Float
  give_up ch id s = record s {
    pending = delete str_keys id s.pending;
    waiters = delete nat_keys ch s.waiters;
  }
