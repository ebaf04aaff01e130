-- ===== src/System/Reached.antt =====
-- The invariant of the whole system, step by step.
use gratis.Api.Server.Waiters.{handle_agent_message-used, handle_agent_message-Before}
use gratis.System.Links.{Honest, Truthful-mono, Truthful, IsSound, Queued, IsSound-mono}
use gratis.System.Links.Moves.{
  Move-Sound, fail_outbound-Sound, end-Sound, empty_link-Sound, enqueue-Sound, receive-Sound,
}
use gratis.Api.Server.Pending.{waiting, started}
use gratis.System.Invariant.{session-Inv, update-Sound, Has, not-Has, Fewer, start-Inv, Inv}
use gratis.Proto.{AgentMessage, Command}
use gratis.Api.Server.{
  handle_agent_message, give_up, return_result, unregister_agent, State, register_agent,
}
use gratis.System.{ended, serving, empty_link, enqueue, update, Link, Issue, issue, System}
use gratis.Text.{Str}
use gratis.Api.Server.Steps.{start_command-started}
use gratis.System.Steps.{
  start, Step, Reach, connects, ends, fails, moves, starts, enqueues, receives, returns, times_out,
  here, next,
}
use gratis.Base.{
  refl, inr, sym, ◌==◌, ap, inl, Bool-cases, ◌∙◌, All-map_pred, lookup-insert, true, arith, subst,
  lookup, lookup-delete, false, ◌≢◌, some, All, nat_keys, none, delete, ℕ, ◌≡◌, List, ◌∷◌,
}

module _ {Float : Type 0} (wide : Str → Str) where
  receive-Inv :
      (s : System Float) (conn now : ℕ) (m : AgentMessage Float) (rest : List (AgentMessage Float))
      (v : State Float)
      → Inv wide s
      → (s.links conn).outbox ≡ m ∷ rest
      → handle_agent_message conn now m s.server ≡ some v
      → Inv wide (record s {
        server = v;
        links = update s.links conn (record (s.links conn) { outbox = rest });
      })
  receive-Inv s conn now m rest v inv o h =
      let (sound, honest) =
        receive-Sound wide s.issued s.queued conn (s.links conn) m rest o (inv.sessions conn) in
      record {
        sessions = update-Sound wide s conn (record (s.links conn) { outbox = rest }) inv sound;
        mine = λ ch w e.
            let (w', e', (same, _)) = handle_agent_message-Before conn now ch m s.server v w h e in
            let (i, p, q) = inv.mine ch w' e' in (i, p, q ∙ same);
        held = λ ch w r e b.
            let (w', e', (same, buffer)) =
              handle_agent_message-Before conn now ch m s.server v w h e in
            elim buffer [
              | inl old ↦ inv.held ch w' r e' (sym old ∙ b)
              | inr (r', is_result, new) ↦
                  let same_result : r' ≡ r = cc (new, b) in
                  subst (Truthful wide s.issued) same_result
                    (subst (Honest wide s.issued) is_result honest)
            ];
        unique = inv.unique;
        known = λ ch i e.
            subst (Has i.command.command_id)
              (sym (handle_agent_message-used conn now m s.server v h)) (inv.known ch i e);
      }

  -- The new id is no other call's.
  id_new :
      (s : System Float) (c : Command) (ch : ℕ) (j : Issue)
      → Inv wide s
      → All (λ x. x ≢ c.command_id) s.server.used
      → s.issued ch ≡ some j
      → j.command.command_id ≢ c.command_id
  id_new s c ch j inv unused e same =
      not-Has c.command_id s.server.used unused
        (subst (λ x. Has x s.server.used) same (inv.known ch j e))

  issue-Inv :
      (s : System Float) (ch conn : ℕ) (c : Command)
      → Inv wide s
      → s.issued ch ≡ none
      → All (λ x. x ≢ c.command_id) s.server.used
      → Inv wide
          (issue ch (record { conn = conn; command = c }) (started c.command_id ch s.server) s)
  unfolding issue
  issue-Inv s ch conn c inv free unused =
      let i : Issue = record { conn = conn; command = c } in
      let more : (ch' : ℕ) (j : Issue)
          → s.issued ch' ≡ some j
          → update s.issued ch (some i) ch' ≡ some j =
        λ ch' j e. ground (arith, e, free) in
      record {
        sessions =
            λ conn'. IsSound-mono wide more (λ ch' q. q) conn' (s.links conn') (inv.sessions conn');
        mine = λ ch' w e.
            let at_ch = lookup-insert nat_keys ch ch' (waiting c.command_id) s.server.waiters in
            elim (Bool-cases (ch == ch')) [
              | inl q ↦ (i, rw q, ground (arith, at_ch, q, e))
              | inr q ↦
                  let (j, p, same) = inv.mine ch' w (ground (arith, at_ch, q, e)) in
                  (j, more ch' j p, same)
            ];
        held = λ ch' w r e b.
            let at_ch = lookup-insert nat_keys ch ch' (waiting c.command_id) s.server.waiters in
            elim (Bool-cases (ch == ch')) [
              | inl q ↦ absurd (ground (arith, at_ch, q, e, b))
              | inr q ↦ Truthful-mono wide more r (inv.held ch' w r (ground (arith, at_ch, q, e)) b)
            ];
        unique = λ a b j k p q same. elim (Bool-cases (ch == a)) [
          | inl x ↦ elim (Bool-cases (ch == b)) [
            | inl y ↦ ground (arith, x, y)
            | inr y ↦
                let e : s.issued b ≡ some k = ground (arith, y, q) in
                let c' : c ≡ j.command = ground (arith, x, p) in
                absurd (
                  id_new s c b k inv unused e
                    (sym same ∙ ap (λ (z : Command). z.command_id) (sym c')))
          ]
          | inr x ↦ elim (Bool-cases (ch == b)) [
            | inl y ↦
                let e : s.issued a ≡ some j = ground (arith, x, p) in
                let c' : c ≡ k.command = ground (arith, y, q) in
                absurd
                  (id_new s c a j inv unused e (same ∙ ap (λ (z : Command). z.command_id) (sym c')))
            | inr y ↦ inv.unique a b j k (ground (arith, x, p)) (ground (arith, y, q)) same
          ]
        ];
        known = λ ch' j e. elim (Bool-cases (ch == ch')) [
          | inl q ↦ inl (ground (arith, q, e))
          | inr q ↦ inr (inv.known ch' j (ground (arith, q, e)))
        ];
      }

  enqueue-Inv :
      (s : System Float) (ch : ℕ) (i : Issue) (k : Link Float)
      → Inv wide s
      → s.issued ch ≡ some i
      → s.queued ch ≡ false
      → enqueue i.command (s.links i.conn) ≡ some k
      → Inv wide (record s { links = update s.links i.conn k; queued = update s.queued ch true })
  enqueue-Inv s ch i k inv p q h =
      let later : (a : ℕ) → s.queued a ≡ true → update s.queued ch true a ≡ true =
        λ a e. ground (arith, e) in
      let sound = λ (conn : ℕ).
        IsSound-mono wide {issued = s.issued} {issued' = s.issued} (λ a j e. e) later conn
          (s.links conn) (inv.sessions conn) in
      let distinct : All (λ d. i.command.command_id ≢ d.command_id) (s.links i.conn).sent =
        All-map_pred (Queued s.issued s.queued i.conn) (λ d. i.command.command_id ≢ d.command_id)
          (λ d (a, e, r) same.
            let one : ch ≡ a = inv.unique ch a i (record { conn = i.conn; command = d }) p e same in
            let r' : s.queued ch ≡ true = ap s.queued one ∙ r in cc (q, r'))
          (s.links i.conn).sent (inv.sessions i.conn).origin in
      record {
        sessions = λ conn. elim (Bool-cases (i.conn == conn)) [
          | inl e ↦
              let same : i.conn ≡ conn = ground (arith, e) in
              rw e (
                subst (λ x. IsSound wide s.issued (update s.queued ch true) x k) same
                  (enqueue-Sound wide s.issued (update s.queued ch true) i.conn i.command
                    (s.links i.conn) k h (ch, p, ground arith) distinct (sound i.conn)))
          | inr e ↦ rw e (sound conn)
        ];
        mine = inv.mine;
        held = inv.held;
        unique = inv.unique;
        known = inv.known;
      }

  -- A call is over.
  delete-Inv :
      (s : System Float) (v : State Float) (ch : ℕ)
      → Inv wide s
      → v.waiters ≡ delete nat_keys ch s.server.waiters
      → v.used ≡ s.server.used
      → Inv wide (record s { server = v })
  delete-Inv s v ch inv gone same =
      let fewer : Fewer s.server v = λ ch' w e.
        let at_ch = lookup-delete nat_keys ch ch' s.server.waiters in
        let e' : lookup nat_keys ch' (delete nat_keys ch s.server.waiters) ≡ some w =
          subst (λ x. lookup nat_keys ch' x ≡ some w) gone e in
        ground (arith, at_ch, e') in
      record {
        sessions = inv.sessions;
        mine = λ ch' w e. inv.mine ch' w (fewer ch' w e);
        held = λ ch' w r e. inv.held ch' w r (fewer ch' w e);
        unique = inv.unique;
        known = λ ch' i e. rw same (inv.known ch' i e);
      }

  Step-Inv : {s u : System Float} → Step wide s u → Inv wide s → Inv wide u
  unfolding register_agent unregister_agent return_result give_up
  Step-Inv {s} (connects conn a p f e) inv = subst (Inv wide) (sym e) (
      session-Inv wide s conn (empty_link serving) (register_agent conn a s.server) inv
        (empty_link-Sound wide s.issued s.queued conn serving) (λ ch w q. q) refl)
  Step-Inv {s} (ends conn a f e) inv = subst (Inv wide) (sym e) (
      session-Inv wide s conn (record (s.links conn) { phase = ended })
        (unregister_agent conn a.server_id s.server) inv
        (end-Sound wide s.issued s.queued conn (s.links conn) (inv.sessions conn)) (λ ch w q. q)
        refl)
  Step-Inv {s} (fails conn a k f p h e) inv = subst (Inv wide) (sym e) (
      session-Inv wide s conn k (unregister_agent conn a.server_id s.server) inv
        (fail_outbound-Sound wide s.issued s.queued conn (s.links conn) k h (inv.sessions conn))
        (λ ch w q. q) refl)
  Step-Inv {s} (moves conn k m e) inv = subst (Inv wide) (sym e) (
      session-Inv wide s conn k s.server inv
        (Move-Sound wide s.issued s.queued conn (s.links conn) k m (inv.sessions conn))
        (λ ch w q. q) refl)
  Step-Inv {s} (starts server_id ch conn c v p unused f h e) inv =
      let same = start_command-started server_id c.command_id ch conn s.server v h in
      subst (Inv wide) (sym e) (
        subst (λ x. Inv wide (issue ch (record { conn = conn; command = c }) x s)) same
          (issue-Inv s ch conn c inv p unused))
  Step-Inv {s} (enqueues ch i k p q h e) inv =
      subst (Inv wide) (sym e) (enqueue-Inv s ch i k inv p q h)
  Step-Inv {s} (receives conn now m rest v p o h e) inv =
      subst (Inv wide) (sym e) (receive-Inv s conn now m rest v inv o h)
  Step-Inv {s} (returns ch w r q f b e) inv =
      subst (Inv wide) (sym e) (delete-Inv s (return_result ch s.server) ch inv refl refl)
  Step-Inv {s} (times_out ch w q f e) inv =
      subst (Inv wide) (sym e) (delete-Inv s (give_up ch w.command_id s.server) ch inv refl refl)

  pub Reach-Inv : {s : System Float} → Reach wide start s → Inv wide s
  Reach-Inv here = start-Inv wide
  Reach-Inv (next r st) = Step-Inv st (Reach-Inv r)
