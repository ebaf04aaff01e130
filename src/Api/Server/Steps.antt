-- ===== src/Api/Server/Steps.antt =====
-- The interleavings of the server: each step is one critical section or one channel operation of
-- some goroutine of server.go.
use gratis.Host.{ok}
use gratis.Proto.{command_result, heartbeat, CommandResult, Heartbeat, AgentMessage}
use gratis.Base.{refl, sym, ap, ◌≢◌, All, none, some, nat_keys, lookup, arith, ◌≡◌, [], ℕ}
use gratis.Api.Server.{
  take_result, give_up, return_result, Waiter, unregister_agent, register_agent,
  handle_agent_message, ConnectedAgent, start_command, note_heartbeat, State,
}
use gratis.Text.{str_keys, Str}
use mathlib.Core.Path.{subst}
use gratis.Api.Server.Pending.{
  started, IsConsistent, take_result-IsConsistent, started-IsConsistent, return_result-IsConsistent,
  give_up-IsConsistent,
}

module _ {Float : Type 0} where
  -- `u` is the state behind the step from `s`.
  pub data Step (s u : State Float) : Type 0 where
    -- Connect registers the agent of a new session
    connects :
        (conn : ℕ) (a : ConnectedAgent Float)
        → lookup nat_keys conn s.sessions ≡ none
        → u ≡ register_agent conn a s
        → Step s u
    -- a session ends, and its deferred unregisterAgent runs
    disconnects :
        (conn : ℕ) (a : ConnectedAgent Float)
        → lookup nat_keys conn s.sessions ≡ some a
        → u ≡ unregister_agent conn a.server_id s
        → Step s u
    -- a session handles a message of its agent
    receives :
        (conn now : ℕ) (m : AgentMessage Float)
        → handle_agent_message conn now m s ≡ some u
        → Step s u
    -- SendCommand, with an id that no command had before and a new channel
    starts :
        (server_id id : Str) (ch conn : ℕ)
        → All (λ x. x ≢ id) s.used
        → lookup nat_keys ch s.waiters ≡ none
        → start_command server_id id ch s ≡ ok (conn, u)
        → Step s u
    returns :
        (ch : ℕ) (w : Waiter) (r : CommandResult)
        → lookup nat_keys ch s.waiters ≡ some w
        → w.buffered ≡ some r
        → u ≡ return_result ch s
        → Step s u
    times_out :
        (ch : ℕ) (w : Waiter)
        → lookup nat_keys ch s.waiters ≡ some w
        → u ≡ give_up ch w.command_id s
        → Step s u

  pub data Reach (s : State Float) : State Float → Type 0 where
    here : Reach s s
    next : {t u : State Float} → Reach s t → Step t u → Reach s u

  -- NewServer
  abbrev pub initial : State Float
  initial = record { agents = []; pending = []; sessions = []; waiters = []; used = [] }

  IsConsistent-of_maps :
      (s u : State Float)
      → u.pending ≡ s.pending
      → u.waiters ≡ s.waiters
      → IsConsistent s
      → IsConsistent u
  IsConsistent-of_maps s u p w c = record {
    waits = λ id ch e. rw w (c.waits id ch (rw p at e));
    own = λ ch x r e. c.own ch x r (rw w at e);
  }

  note_heartbeat_maps :
      (conn now : ℕ) (h : Heartbeat Float) (s : State Float)
      → ((note_heartbeat conn now h s).pending ≡ s.pending)
        × ((note_heartbeat conn now h s).waiters ≡ s.waiters)
  unfolding note_heartbeat
  note_heartbeat_maps conn now h s = ground arith

  receives-IsConsistent :
      (conn now : ℕ) (m : AgentMessage Float) (s u : State Float)
      → IsConsistent s
      → handle_agent_message conn now m s ≡ some u
      → IsConsistent u
  unfolding handle_agent_message
  receives-IsConsistent conn now (heartbeat h) s u c e =
      let (p, w) = note_heartbeat_maps conn now h s in
      let same : note_heartbeat conn now h s ≡ u = cc e in
      subst IsConsistent same (IsConsistent-of_maps s (note_heartbeat conn now h s) p w c)
  receives-IsConsistent conn now (command_result r) s u c e =
      let (u', p, c') = take_result-IsConsistent r s c in
      let same : u' ≡ u = cc (p, e) in subst IsConsistent same c'
  receives-IsConsistent conn now _ s u c e = let same : s ≡ u = cc e in subst IsConsistent same c

  pub start_command-started :
      (server_id id : Str) (ch conn : ℕ) (s u : State Float)
      → start_command server_id id ch s ≡ ok (conn, u)
      → started id ch s ≡ u
  unfolding start_command
  start_command-started server_id id ch conn s u e = ground arith

  pub start_command-mapped :
      (server_id id : Str) (ch conn : ℕ) (s : State Float)
      → lookup str_keys server_id s.agents ≡ some conn
      → start_command server_id id ch s ≡ ok (conn, started id ch s)
  unfolding start_command
  start_command-mapped server_id id ch conn s e = rw (start_command, e) refl

  Step-IsConsistent : {s u : State Float} → Step s u → IsConsistent s → IsConsistent u
  unfolding register_agent unregister_agent
  Step-IsConsistent {s} {u} (connects conn a fresh e) c =
      IsConsistent-of_maps s u (ap (λ (x : State Float). x.pending) e)
        (ap (λ (x : State Float). x.waiters) e) c
  Step-IsConsistent {s} {u} (disconnects conn a there e) c =
      IsConsistent-of_maps s u (ap (λ (x : State Float). x.pending) e)
        (ap (λ (x : State Float). x.waiters) e) c
  Step-IsConsistent {s} {u} (receives conn now m e) c = receives-IsConsistent conn now m s u c e
  Step-IsConsistent {s} {u} (starts server_id id ch conn unused fresh e) c =
      subst IsConsistent (start_command-started server_id id ch conn s u e)
        (started-IsConsistent id ch s c fresh)
  Step-IsConsistent {s} (returns ch w r found held e) c =
      subst IsConsistent (sym e) (return_result-IsConsistent ch w r s c found held)
  Step-IsConsistent {s} (times_out ch w found e) c =
      subst IsConsistent (sym e) (give_up-IsConsistent ch w s c found)

  initial-IsConsistent : IsConsistent initial
  unfolding lookup
  initial-IsConsistent = record { waits = λ id ch p. cc p; own = λ ch w r p q. cc p }

  -- In every state reached from the initial one, by any interleaving of steps, every id in `pending`
  -- leads to a call that waits for it with an empty channel, and what a channel holds is a result of
  -- its own command.
  pub Reach-IsConsistent : {s : State Float} → Reach initial s → IsConsistent s
  Reach-IsConsistent here = initial-IsConsistent
  Reach-IsConsistent (next r st) = Step-IsConsistent st (Reach-IsConsistent r)

  -- In every state reached from the initial one, a session that handles a result, whichever it is,
  -- does not block on the channel of the call that waits for it.
  Reach-take_result :
      {s : State Float}
      → Reach initial s
      → (r : CommandResult) → (u : State Float) × (take_result r s ≡ some u)
  Reach-take_result {s} reach r =
      let (u, e, c) = take_result-IsConsistent r s (Reach-IsConsistent reach) in (u, e)

  -- A session handles every message.
  pub Reach-handles :
      {s : State Float} (conn now : ℕ) (m : AgentMessage Float)
      → Reach initial s
      → (u : State Float) × (handle_agent_message conn now m s ≡ some u)
  unfolding handle_agent_message
  Reach-handles conn now (command_result r) reach = Reach-take_result reach r
  Reach-handles {s} conn now (heartbeat h) reach = (note_heartbeat conn now h s, refl)
  Reach-handles {s} conn now _ reach = (s, refl)
