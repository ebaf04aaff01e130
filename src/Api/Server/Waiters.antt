-- ===== src/Api/Server/Waiters.antt =====
-- What a message of an agent does to the calls of SendCommand that wait.
use gratis.Api.Server.Pending.{waiting, answered, started}
use gratis.Text.{str_eq_refl, Str, str_keys}
use gratis.Proto.{heartbeat, command_result, CommandResult, AgentMessage}
use gratis.Api.Server.{State, note_heartbeat, Waiter, handle_agent_message, take_result, deliver}
use gratis.Base.{
  refl, lookup-insert, ◌==◌, Bool-cases, sym, subst, delete, insert, inr, Option-cases, inl,
  nat_keys, arith, lookup, some, ◌⊎◌, ℕ, ◌≡◌,
}

module _ {Float : Type 0} where
  -- What a waiting call was before: the same call, whose channel held the same or gets this result.
  abbrev pub Before : AgentMessage Float → Waiter → Waiter → Type 0
  Before m w w' =
      (w.command_id ≡ w'.command_id)
      × ((w'.buffered ≡ w.buffered)
          ⊎ ((r : CommandResult) × (m ≡ command_result r) × (w'.buffered ≡ some r)))

  deliver-Before :
      (ch ch' : ℕ) (r : CommandResult) (s u : State Float) (w' : Waiter)
      → deliver ch r s ≡ some u
      → lookup nat_keys ch' u.waiters ≡ some w'
      → (w : Waiter) × (lookup nat_keys ch' s.waiters ≡ some w) × Before (command_result r) w w'
  unfolding deliver
  deliver-Before ch ch' r s u w' h e = elim (Option-cases (lookup nat_keys ch s.waiters)) [
    | inl gone ↦ (w', cc (gone, h, e), (refl, inl refl))
    | inr (w, there) ↦ elim (Option-cases w.buffered) [
      | inr (old, full) ↦ cc (there, full, h)
      | inl room ↦
          let same : record s {
            waiters = insert nat_keys ch (record w { buffered = some r }) s.waiters;
          }
              ≡ u =
            cc (there, room, h) in
          let e' : lookup nat_keys ch'
                (insert nat_keys ch (record w { buffered = some r }) s.waiters)
              ≡ some w' =
            subst (λ (x : State Float). lookup nat_keys ch' x.waiters ≡ some w') (sym same) e in
          let at_ch = lookup-insert nat_keys ch ch' (record w { buffered = some r }) s.waiters in
          elim (Bool-cases (ch == ch')) [
            | inl q ↦ (
              w,
              ground (arith, q, there),
              (ground (arith, at_ch, q, e'), inr (r, refl, ground (arith, at_ch, q, e'))),
            )
            | inr q ↦ (w', ground (arith, q, at_ch, e'), (refl, inl refl))
          ]
    ]
  ]

  take_result-Before :
      (ch' : ℕ) (r : CommandResult) (s u : State Float) (w' : Waiter)
      → take_result r s ≡ some u
      → lookup nat_keys ch' u.waiters ≡ some w'
      → (w : Waiter) × (lookup nat_keys ch' s.waiters ≡ some w) × Before (command_result r) w w'
  unfolding take_result
  take_result-Before ch' r s u w' h e =
      elim (Option-cases (lookup str_keys r.command_id s.pending)) [
        | inl gone ↦ (w', cc (gone, h, e), (refl, inl refl))
        | inr (ch, there) ↦
            let h' = rw (there, take_result) at h in
            deliver-Before ch ch' r (record s { pending = delete str_keys r.command_id s.pending })
              u w' h' e
      ]

  pub handle_agent_message-Before :
      (conn now ch : ℕ) (m : AgentMessage Float) (s u : State Float) (w' : Waiter)
      → handle_agent_message conn now m s ≡ some u
      → lookup nat_keys ch u.waiters ≡ some w'
      → (w : Waiter) × (lookup nat_keys ch s.waiters ≡ some w) × Before m w w'
  unfolding handle_agent_message note_heartbeat
  handle_agent_message-Before conn now ch (heartbeat b) s u w' h e =
      (w', ground arith, (refl, inl refl))
  handle_agent_message-Before conn now ch (command_result r) s u w' h e =
      take_result-Before ch r s u w' h e
  handle_agent_message-Before conn now ch (AgentMessage.log l) s u w' h e =
      (w', cc (h, e), (refl, inl refl))
  handle_agent_message-Before conn now ch (AgentMessage.register l) s u w' h e =
      (w', cc (h, e), (refl, inl refl))
  handle_agent_message-Before conn now ch AgentMessage.empty s u w' h e =
      (w', cc (h, e), (refl, inl refl))

  pub handle_agent_message-used :
      (conn now : ℕ) (m : AgentMessage Float) (s u : State Float)
      → handle_agent_message conn now m s ≡ some u
      → u.used ≡ s.used
  unfolding handle_agent_message note_heartbeat take_result deliver
  handle_agent_message-used conn now (heartbeat b) s u h = ground arith
  handle_agent_message-used conn now (command_result r) s u h = ground arith
  handle_agent_message-used conn now _ s u h = ground arith

  pub handle_agent_message-agents :
      (conn now : ℕ) (m : AgentMessage Float) (s u : State Float)
      → handle_agent_message conn now m s ≡ some u
      → u.agents ≡ s.agents
  unfolding handle_agent_message note_heartbeat take_result deliver
  handle_agent_message-agents conn now (heartbeat b) s u h = ground arith
  handle_agent_message-agents conn now (command_result r) s u h = ground arith
  handle_agent_message-agents conn now _ s u h = ground arith

  -- The result of a command that was just entered is put into the channel of its call.
  pub take_result-started :
      (id : Str) (ch : ℕ) (s : State Float) (r : CommandResult)
      → r.command_id ≡ id
      → (u : State Float) × (take_result r (started id ch s) ≡ some u)
        × (lookup nat_keys ch u.waiters ≡ some (answered id r))
  unfolding take_result deliver
  take_result-started id ch s r e =
      let pending : lookup str_keys r.command_id (insert str_keys id ch s.pending) ≡ some ch =
        ground (arith, e, lookup-insert str_keys id r.command_id ch s.pending, str_eq_refl id) in
      let waits : lookup nat_keys ch (insert nat_keys ch (waiting id) s.waiters)
          ≡ some (waiting id) =
        ground (arith, lookup-insert nat_keys ch ch (waiting id) s.waiters) in
      let u : State Float = record (started id ch s) {
        pending = delete str_keys r.command_id (insert str_keys id ch s.pending);
        waiters = insert nat_keys ch (answered id r) (insert nat_keys ch (waiting id) s.waiters);
      } in
      (
        u,
        rw (take_result, pending, deliver, waits) refl,
        ground (
          arith,
          lookup-insert nat_keys ch ch (answered id r) (insert nat_keys ch (waiting id) s.waiters),
        ),
      )
