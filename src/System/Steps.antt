-- ===== src/System/Steps.antt =====
-- The steps of the whole system.
use gratis.Host.{ok, Trace, Env}
use gratis.Api.Server.{
  give_up, return_result, Waiter, handle_agent_message, start_command, State, unregister_agent,
  register_agent, ConnectedAgent,
}
use gratis.Agent.Dispatch.{dispatch, Dispatcher}
use gratis.Api.Server.Steps.{initial}
use gratis.Proto.{AgentMessage, heartbeat, Heartbeat, command_result, CommandResult, Command}
use gratis.System.{
  enqueue, Issue, issue, read_up, fail_outbound, send_up, ended, update, take_command, read_down,
  send_outbound, fresh, empty_link, serving, System, Link,
}
use gratis.Text.{Str}
use gratis.Base.{true, ◌≢◌, All, ◌++◌, List, nat_keys, false, none, some, lookup, ℕ, ◌≡◌, ◌∷◌}

-- The result is what Dispatch answers to the command, on some machine, after some calls.
pub record Answers (wide : Str → Str) (c : Command) (r : CommandResult) : Type 0 where
  pub dispatcher : Dispatcher
  pub env : Env
  pub calls : Trace
  pub answered : (dispatch wide dispatcher env c calls).0 ≡ some r

module _ {Float : Type 0} where
  -- Nothing is connected, and nothing was called.
  abbrev pub start : System Float
  start = record {
    server = initial;
    links = λ conn. empty_link fresh;
    issued = λ ch. none;
    queued = λ ch. false;
  }

module _ {Float : Type 0} (wide : Str → Str) where
  -- A move of one session's channels and streams alone.
  pub data Move (l k : Link Float) : Type 0 where
    sends : l.phase ≡ serving → send_outbound l ≡ some k → Move l k
    reads_down : read_down l ≡ some k → Move l k
    takes : take_command l ≡ some k → Move l k
    -- handleCommand comes to its end; any of the running ones may be the first
    answers :
        (before after : List Command) (c : Command) (r : CommandResult)
        → l.running ≡ before ++ c ∷ after
        → Answers wide c r
        → k ≡ send_up (command_result r) (record l { running = before ++ after })
        → Move l k
    -- the ticker of the agent's session
    beats : (h : Heartbeat Float) → k ≡ send_up (heartbeat h) l → Move l k
    reads_up : read_up l ≡ some k → Move l k

  pub data Step (s u : System Float) : Type 0 where
    connects :
        (conn : ℕ) (a : ConnectedAgent Float)
        → (s.links conn).phase ≡ fresh
        → lookup nat_keys conn s.server.sessions ≡ none
        → u ≡ record s {
          server = register_agent conn a s.server;
          links = update s.links conn (empty_link serving);
        }
        → Step s u
    -- handleSession returns, and unregisterAgent runs
    ends :
        (conn : ℕ) (a : ConnectedAgent Float)
        → lookup nat_keys conn s.server.sessions ≡ some a
        → u ≡ record s {
          server = unregister_agent conn a.server_id s.server;
          links = update s.links conn (record (s.links conn) { phase = ended });
        }
        → Step s u
    -- handleSession returns because of a Send that failed
    fails :
        (conn : ℕ) (a : ConnectedAgent Float) (k : Link Float)
        → lookup nat_keys conn s.server.sessions ≡ some a
        → (s.links conn).phase ≡ serving
        → fail_outbound (s.links conn) ≡ some k
        → u ≡ record s {
          server = unregister_agent conn a.server_id s.server;
          links = update s.links conn k;
        }
        → Step s u
    moves :
        (conn : ℕ) (k : Link Float)
        → Move (s.links conn) k
        → u ≡ record s { links = update s.links conn k }
        → Step s u
    -- SendCommand up to its send, with an id that no command had before and a new channel
    starts :
        (server_id : Str) (ch conn : ℕ) (c : Command) (v : State Float)
        → s.issued ch ≡ none
        → All (λ x. x ≢ c.command_id) s.server.used
        → lookup nat_keys ch s.server.waiters ≡ none
        → start_command server_id c.command_id ch s.server ≡ ok (conn, v)
        → u ≡ issue ch (record { conn = conn; command = c }) v s
        → Step s u
    -- the send of SendCommand
    enqueues :
        (ch : ℕ) (i : Issue) (k : Link Float)
        → s.issued ch ≡ some i
        → s.queued ch ≡ false
        → enqueue i.command (s.links i.conn) ≡ some k
        → u ≡ record s { links = update s.links i.conn k; queued = update s.queued ch true }
        → Step s u
    -- handleSession handles a message
    receives :
        (conn now : ℕ) (m : AgentMessage Float) (rest : List (AgentMessage Float)) (v : State Float)
        → (s.links conn).phase ≡ serving
        → (s.links conn).outbox ≡ m ∷ rest
        → handle_agent_message conn now m s.server ≡ some v
        → u ≡ record s {
          server = v;
          links = update s.links conn (record (s.links conn) { outbox = rest });
        }
        → Step s u
    -- the wait of SendCommand begins behind its send
    returns :
        (ch : ℕ) (w : Waiter) (r : CommandResult)
        → s.queued ch ≡ true
        → lookup nat_keys ch s.server.waiters ≡ some w
        → w.buffered ≡ some r
        → u ≡ record s { server = return_result ch s.server }
        → Step s u
    times_out :
        (ch : ℕ) (w : Waiter)
        → s.queued ch ≡ true
        → lookup nat_keys ch s.server.waiters ≡ some w
        → u ≡ record s { server = give_up ch w.command_id s.server }
        → Step s u

  pub data Reach (s : System Float) : System Float → Type 0 where
    here : Reach s s
    next : {t u : System Float} → Reach s t → Step t u → Reach s u
