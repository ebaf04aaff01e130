-- ===== src/System/Complete.antt =====
-- A call of SendCommand that is answered.
use gratis.Api.Server.Waiters.{take_result-started}
use gratis.Agent.Dispatch.Results.{dispatch_answers}
use gratis.Api.Server.Steps.{start_command-mapped}
use gratis.Api.Server.Pending.{started}
use gratis.System.Reached.{Reach-Inv}
use gratis.System.Idle.{Ready, comes_to_rest}
use gratis.System.Drain.{Reach-Reach, Moves-Reach, rest, then, Moves}
use gratis.Proto.{command_result, CommandResult, Command}
use gratis.Api.Server.{State, take_result, handle_agent_message}
use gratis.System.{
  update-same, update, Issue, serving, Link, read_up, System, send_up, take_command, read_down,
  issue, send_outbound, enqueue,
}
use gratis.Base.{
  ◌∙◌, ap, sym, subst, inr, inl, Option-cases, refl, nat_keys, true, ◌≢◌, ◌++◌, All, false, none,
  some, ◌≡◌, lookup, ℕ, ◌∷◌, [],
}
use gratis.System.Steps.{
  here, sends, reads_down, takes, answers, reads_up, Answers, Reach, start, next, receives, starts,
  enqueues,
}
use gratis.Text.{str_keys, Str}

abbrev issue_of : ℕ → Command → Issue
issue_of conn c = record { conn = conn; command = c }

module _ {Float : Type 0} where
  -- The state behind the send of a new call.
  abbrev called : ℕ → ℕ → Command → System Float → System Float
  called conn ch c s = record (issue ch (issue_of conn c) (started c.command_id ch s.server) s) {
    links = update s.links conn (record (s.links conn) {
      queue = (s.links conn).queue ++ c ∷ [];
      sent = (s.links conn).sent ++ c ∷ [];
    });
    queued = update s.queued ch true;
  }

module _ {Float : Type 0} (wide : Str → Str) where
  -- The way of one command and its result through a session with nothing else on its way.
  answer_one :
      (c : Command) (r : CommandResult) (l : Link Float)
      → Answers wide c r
      → l.phase ≡ serving
      → l.queue ≡ c ∷ []
      → l.down ≡ []
      → l.inbox ≡ []
      → l.up ≡ []
      → l.outbox ≡ []
      → (k : Link Float) × Moves wide l k × (k.phase ≡ serving) × (k.outbox ≡ command_result r ∷ [])
  unfolding send_outbound read_down take_command send_up read_up
  answer_one c r l answer serves q d i u o =
      let l1 : Link Float = record l { queue = []; down = l.down ++ c ∷ [] } in
      let l2 : Link Float = record l1 { down = []; inbox = l.inbox ++ c ∷ [] } in
      let l3 : Link Float = record l2 {
        inbox = [];
        started = l.started ++ c ∷ [];
        running = c ∷ l.running;
      } in
      let l4 : Link Float = send_up (command_result r) (record l3 { running = l.running }) in
      let l5 : Link Float = record l4 { up = []; outbox = l.outbox ++ command_result r ∷ [] } in
      let way1 : Moves wide l l1 = then rest (sends serves (rw q refl)) in
      let way2 : Moves wide l l2 = then way1 (reads_down (rw (d, i) refl)) in
      let way3 : Moves wide l l3 = then way2 (takes (rw i refl)) in
      let way4 : Moves wide l l4 = then way3 (answers [] l.running c r refl answer refl) in
      (l5, then way4 (reads_up (rw (u, o) refl)), serves, rw o refl)

  -- A call for a session with nothing on its way comes to its send.
  calls-Reach :
      (server_id : Str) (conn ch : ℕ) (c : Command) (s : System Float)
      → Ready wide server_id c.command_id conn ch s
      → Reach wide s (called conn ch c s)
  unfolding enqueue issue
  calls-Reach server_id conn ch c s ready =
      let i = issue_of conn c in
      let v : State Float = started c.command_id ch s.server in
      let free : lookup nat_keys ch s.server.waiters ≡ none =
        elim (Option-cases (lookup nat_keys ch s.server.waiters)) [
          | inl gone ↦ gone
          | inr (w, e) ↦
              let (j, p, _) = (Reach-Inv wide ready.reached).mine ch w e in
              absurd (cc (p, ready.new))
        ] in
      let l = s.links conn in
      let k : Link Float = record l { queue = l.queue ++ c ∷ []; sent = l.sent ++ c ∷ [] } in
      next {t = issue ch i v s}
        (next here (
          starts server_id ch conn c v ready.new ready.unused free
            (start_command-mapped server_id c.command_id ch conn s.server ready.mapped) refl))
        (enqueues ch i k (update-same s.issued ch (some i)) ready.unsent (rw (ready.queue) refl)
          refl)

-- From every state that the whole system reaches in which a server's agent has a session that is
-- served, a new call of SendCommand for this server, with an id that no command had, can be carried
-- through: for every result that Dispatch may answer to its command there are steps to a state in
-- which the call has sent its command and this result is held for it.
pub Reach-completes :
    {Float : Type 0} (wide : Str → Str) {s : System Float} (server_id : Str) (conn ch : ℕ)
    (c : Command) (r : CommandResult)
    → Reach wide start s
    → lookup str_keys server_id s.server.agents ≡ some conn
    → (s.links conn).phase ≡ serving
    → s.issued ch ≡ none
    → s.queued ch ≡ false
    → All (λ x. x ≢ c.command_id) s.server.used
    → Answers wide c r
    → (u : System Float) × Reach wide s u
      × (u.issued ch ≡ some (record { conn = conn; command = c }))
      × (u.queued ch ≡ true)
      × (lookup nat_keys ch u.server.waiters
          ≡ some (record { command_id = c.command_id; buffered = some r }))
unfolding handle_agent_message issue
Reach-completes {Float} wide {s} server_id conn ch c r reach mapped serves new unsent unused
      answer =
    let (s0, way, ready, o, up) =
      comes_to_rest wide server_id c.command_id conn ch s reach serves mapped new unsent unused in
    let l = s0.links conn in
    let k : Link Float = record l { queue = l.queue ++ c ∷ []; sent = l.sent ++ c ∷ [] } in
    let (m, moves, serves', back) =
      answer_one wide c r k answer ready.serves (rw (ready.queue) refl) ready.down ready.inbox up
        o in
    let s1 : System Float = called conn ch c s0 in
    let (s2, way', at, server, calls, sent) =
      Moves-Reach wide {s = s1} conn
        (subst (λ x. Moves wide x m) (sym (update-same s0.links conn k)) moves) in
    let id : r.command_id ≡ c.command_id =
      (dispatch_answers wide answer.dispatcher answer.env c answer.calls answer.answered).0 in
    let (v, taken, held) = take_result-started c.command_id ch s0.server r id in
    (
      record s2 {
        server = v;
        links = update s2.links conn (record (s2.links conn) { outbox = [] });
      },
      next
          (Reach-Reach wide (Reach-Reach wide way (calls-Reach wide server_id conn ch c s0 ready))
            way')
          (receives conn 0 (command_result r) [] v (ap (λ x. x.phase) at ∙ serves')
            (ap (λ x. x.outbox) at ∙ back) (ap (take_result r) server ∙ taken) refl),
      ap (λ f. f ch) calls ∙ update-same s0.issued ch (some (record { conn = conn; command = c })),
      ap (λ f. f ch) sent ∙ update-same s0.queued ch true,
      held,
    )
