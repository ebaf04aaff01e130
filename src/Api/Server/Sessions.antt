-- ===== src/Api/Server/Sessions.antt =====
-- The map `agents` of server.go against the sessions that are open.
use gratis.Host.{errorf, err}
use gratis.Text.{str_eq_refl, str_eq, str_eq_iff, str_keys, Str}
use gratis.Api.Server.{ConnectedAgent, start_command, State, register_agent, unregister_agent}
use gratis.Base.{
  inr, inl, Bool-cases, insert, arith, lookup-insert, lookup-delete, some, none, nat_keys, ◌≡◌,
  lookup, ◌≢◌, ℕ, ◌∷◌, [],
}

module _ {Float : Type 0} where
  -- The map leads from an id exactly to the open session of that server.
  pub record MapsSessions (s : State Float) : Type 0 where
    pub to_open :
        (id : Str) (conn : ℕ)
        → lookup str_keys id s.agents ≡ some conn
        → (a : ConnectedAgent Float) × (lookup nat_keys conn s.sessions ≡ some a)
          × (a.server_id ≡ id)
    pub to_mapped :
        (conn : ℕ) (a : ConnectedAgent Float)
        → lookup nat_keys conn s.sessions ≡ some a
        → lookup str_keys a.server_id s.agents ≡ some conn

  -- If the map leads exactly to the open sessions, it still does behind registerAgent, for a new
  -- session of a server that is not in the map.
  register_agent-MapsSessions :
      (conn : ℕ) (a : ConnectedAgent Float) (s : State Float)
      → MapsSessions s
      → lookup nat_keys conn s.sessions ≡ none
      → lookup str_keys a.server_id s.agents ≡ none
      → MapsSessions (register_agent conn a s)
  unfolding register_agent
  register_agent-MapsSessions conn a s m fresh free = record {
    to_open = λ id conn' p.
        let at_id = lookup-insert str_keys a.server_id id conn s.agents in
        let at_conn = lookup-insert nat_keys conn conn' a s.sessions in
        elim (Bool-cases (str_eq a.server_id id)) [
          | inl e ↦
              (a, ground (arith, at_id, at_conn, e), ground (arith, e, str_eq_iff a.server_id id))
          | inr e ↦
              let (b, q, r) = m.to_open id conn' (ground (arith, at_id, e)) in
              (b, ground (arith, at_conn), r)
        ];
    to_mapped = λ conn' b p. ground (
      arith,
      lookup-insert str_keys a.server_id b.server_id conn s.agents,
      lookup-insert nat_keys conn conn' a s.sessions,
      m.to_mapped conn' b,
      str_eq_iff a.server_id b.server_id,
    );
  }

  -- If the map leads exactly to the open sessions, it still does behind unregisterAgent at the end of
  -- an open session.
  unregister_agent-MapsSessions :
      (conn : ℕ) (a : ConnectedAgent Float) (s : State Float)
      → MapsSessions s
      → lookup nat_keys conn s.sessions ≡ some a
      → MapsSessions (unregister_agent conn a.server_id s)
  unfolding unregister_agent
  unregister_agent-MapsSessions conn a s m there = record {
    to_open = λ id conn' p.
        let at_id = lookup-delete str_keys a.server_id id s.agents in
        let at_conn = lookup-delete nat_keys conn conn' s.sessions in
        let (b, q, r) = m.to_open id conn' (ground (arith, at_id)) in
        (b, ground (arith, at_id, at_conn, there, str_eq_iff a.server_id id), r);
    to_mapped = λ conn' b p. ground (
      arith,
      lookup-delete str_keys a.server_id b.server_id s.agents,
      lookup-delete nat_keys conn conn' s.sessions,
      m.to_mapped conn' b,
      m.to_mapped conn a there,
      str_eq_iff a.server_id b.server_id,
    );
  }

  start_command_missing :
      (server_id id : Str) (ch : ℕ) (s : State Float)
      → lookup str_keys server_id s.agents ≡ none
      → start_command server_id id ch s ≡ err (errorf "server %q not connected" (server_id ∷ []))
  unfolding start_command
  start_command_missing server_id id ch s e = ground (arith, e)

  -- If a server connects again, by another session, before its old session has ended, the end of the
  -- old session takes the new one out of the map: the new session is open, and a command to the
  -- server is refused as "not connected".
  pub reconnect_lost :
      (old new : ℕ) (a b : ConnectedAgent Float) (id : Str) (ch : ℕ) (s : State Float)
      → old ≢ new
      → b.server_id ≡ a.server_id
      → (lookup nat_keys new
            (unregister_agent old a.server_id
              (register_agent new b (register_agent old a s))).sessions
          ≡ some b)
        × (start_command a.server_id id ch
              (unregister_agent old a.server_id (register_agent new b (register_agent old a s)))
            ≡ err (errorf "server %q not connected" (a.server_id ∷ [])))
  unfolding unregister_agent register_agent
  reconnect_lost old new a b id ch s distinct same = (
    ground (
      arith,
      lookup-delete nat_keys old new (insert nat_keys new b (insert nat_keys old a s.sessions)),
      lookup-insert nat_keys new new b (insert nat_keys old a s.sessions),
    ),
    start_command_missing a.server_id id ch _ (
        ground (
          arith,
          str_eq_refl a.server_id,
          lookup-delete str_keys a.server_id a.server_id
              (insert str_keys b.server_id new (insert str_keys a.server_id old s.agents)),
        )),
  )
