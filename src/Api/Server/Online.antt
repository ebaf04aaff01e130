-- ===== src/Api/Server/Online.antt =====
-- The map `agents` of server.go in every reached state: its entries, and the sessions they lead to.
use gratis.Api.Server.Entries.{delete-Distinct, Distinct, delete-All}
use gratis.Host.{ok}
use gratis.Proto.{command_result, heartbeat, AgentMessage, CommandResult, Heartbeat}
use gratis.Text.{Str}
use gratis.Api.Server.Steps.{
  Step, connects, disconnects, receives, starts, returns, times_out, Reach, here, next, initial,
}
use gratis.Api.Server.{
  give_up, start_command, handle_agent_message, return_result, deliver, take_result, ConnectedAgent,
  register_agent, unregister_agent, note_heartbeat, State,
}
use gratis.Base.{
  ==_iff, ◌∙◌, lookup-delete, ◌==◌, arith, lookup-insert, none, nat_keys, Option-cases, insert, ℕ,
  refl, All-map_pred, sym, subst, inr, inl, some, Bool-cases, ◌≡◌, All, List, lookup,
}

module _ {Float : Type 0} where
  -- The entry leads to an open session of its server.
  abbrev pub IsOpen : List (ℕ × ConnectedAgent Float) → Str × ℕ → Type 0
  IsOpen sessions (id, conn) =
      (a : ConnectedAgent Float) × (lookup nat_keys conn sessions ≡ some a) × (a.server_id ≡ id)

  pub record IsOnline (s : State Float) : Type 0 where
    pub open_all : All (IsOpen s.sessions) s.agents
    pub distinct : Distinct s.agents

  IsOnline-of_maps :
      (s u : State Float) → u.agents ≡ s.agents → u.sessions ≡ s.sessions → IsOnline s → IsOnline u
  IsOnline-of_maps s u e f o = record {
    open_all = rw (e, f) (o.open_all);
    distinct = rw e (o.distinct);
  }

  register_agent-IsOnline :
      (conn : ℕ) (a : ConnectedAgent Float) (s : State Float)
      → lookup nat_keys conn s.sessions ≡ none
      → IsOnline s
      → IsOnline (register_agent conn a s)
  unfolding register_agent insert
  register_agent-IsOnline conn a s fresh o =
      let kept = delete-All (IsOpen s.sessions) a.server_id s.agents o.open_all in
      record {
        open_all = (
          (a, ground (arith, lookup-insert nat_keys conn conn a s.sessions), refl),
          All-map_pred _ _
              (λ e p.
                let (b, there, same) = p.0 in
                (
                  b,
                  ground (arith, lookup-insert nat_keys conn e.1 a s.sessions, fresh, there),
                  same,
                ))
              _ kept,
        );
        distinct =
            (All-map_pred _ _ (λ e p. p.1) _ kept, delete-Distinct a.server_id s.agents o.distinct);
      }

  unregister_agent-IsOnline :
      (conn : ℕ) (a : ConnectedAgent Float) (s : State Float)
      → lookup nat_keys conn s.sessions ≡ some a
      → IsOnline s
      → IsOnline (unregister_agent conn a.server_id s)
  unfolding unregister_agent
  unregister_agent-IsOnline conn a s there o =
      let kept = delete-All (IsOpen s.sessions) a.server_id s.agents o.open_all in
      record {
        open_all =
            All-map_pred _ _
              (λ e p.
                let (b, at, same) = p.0 in
                (
                  b,
                  ground (arith, lookup-delete nat_keys conn e.1 s.sessions, there, at, same, p.1),
                  same,
                ))
              _ kept;
        distinct = delete-Distinct a.server_id s.agents o.distinct;
      }

  note_heartbeat-IsOnline :
      (conn now : ℕ) (h : Heartbeat Float) (s : State Float)
      → IsOnline s
      → IsOnline (note_heartbeat conn now h s)
  unfolding note_heartbeat
  note_heartbeat-IsOnline conn now h s o = elim (Option-cases (lookup nat_keys conn s.sessions)) [
    | inl e ↦ rw (note_heartbeat, e) o
    | inr (a, e) ↦
        rw (note_heartbeat, e)
          (record {
            open_all =
                All-map_pred _ _
                  (λ x p.
                    let (b, at, same) = p in
                    let a' = record a { last_metrics = h.metrics; last_seen = some now } in
                    let at' = lookup-insert nat_keys conn x.1 a' s.sessions in
                    elim (Bool-cases (conn == x.1)) [
                      | inl t ↦ (
                        a',
                        at' ∙ rw t refl,
                        let here : conn ≡ x.1 = (==_iff conn x.1).0 t in cc (at, e, here, same),
                      )
                      | inr t ↦ (b, at' ∙ (rw t at), same)
                    ])
                  _ o.open_all;
            distinct = o.distinct;
          })
  ]

  take_result_maps :
      (r : CommandResult) (s u : State Float)
      → take_result r s ≡ some u
      → (u.agents ≡ s.agents) × (u.sessions ≡ s.sessions)
  unfolding take_result deliver
  take_result_maps r s u e = (ground arith, ground arith)

  receives-IsOnline :
      (conn now : ℕ) (m : AgentMessage Float) (s u : State Float)
      → IsOnline s
      → handle_agent_message conn now m s ≡ some u
      → IsOnline u
  unfolding handle_agent_message
  receives-IsOnline conn now (heartbeat h) s u o e =
      let same : note_heartbeat conn now h s ≡ u = cc e in
      subst IsOnline same (note_heartbeat-IsOnline conn now h s o)
  receives-IsOnline conn now (command_result r) s u o e =
      let (agents, sessions) = take_result_maps r s u e in IsOnline-of_maps s u agents sessions o
  receives-IsOnline conn now _ s u o e = let same : s ≡ u = cc e in subst IsOnline same o

  start_command_maps :
      (server_id id : Str) (ch conn : ℕ) (s u : State Float)
      → start_command server_id id ch s ≡ ok (conn, u)
      → (u.agents ≡ s.agents) × (u.sessions ≡ s.sessions)
  unfolding start_command
  start_command_maps server_id id ch conn s u e = (ground arith, ground arith)

  Step-IsOnline : {s u : State Float} → Step s u → IsOnline s → IsOnline u
  unfolding return_result give_up
  Step-IsOnline {s} (connects conn a fresh e) o =
      subst IsOnline (sym e) (register_agent-IsOnline conn a s fresh o)
  Step-IsOnline {s} (disconnects conn a there e) o =
      subst IsOnline (sym e) (unregister_agent-IsOnline conn a s there o)
  Step-IsOnline {s} {u} (receives conn now m e) o = receives-IsOnline conn now m s u o e
  Step-IsOnline {s} {u} (starts server_id id ch conn unused fresh e) o =
      let (agents, sessions) = start_command_maps server_id id ch conn s u e in
      IsOnline-of_maps s u agents sessions o
  Step-IsOnline {s} (returns ch w r found held e) o =
      subst IsOnline (sym e) (IsOnline-of_maps s (return_result ch s) refl refl o)
  Step-IsOnline {s} (times_out ch w found e) o =
      subst IsOnline (sym e) (IsOnline-of_maps s (give_up ch w.command_id s) refl refl o)

  -- In every reached state, the map leads from each of its ids to an open session of that server.
  pub Reach-IsOnline : {s : State Float} → Reach initial s → IsOnline s
  Reach-IsOnline here = record { open_all = tt; distinct = tt }
  Reach-IsOnline (next r st) = Step-IsOnline st (Reach-IsOnline r)
