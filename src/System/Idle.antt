-- ===== src/System/Idle.antt =====
-- Steps that bring a session to rest, whatever is on its way.
use gratis.Api.Server.Waiters.{handle_agent_message-used, handle_agent_message-agents}
use gratis.System.Refine.{Reach-server}
use gratis.System.Drain.{Moves-Reach, clear, Reach-Reach}
use gratis.Api.Server.Steps.{Reach-handles}
use gratis.System.{update-same, update, Link, serving, System, read_up}
use gratis.Proto.{AgentMessage}
use gratis.Base.{
  sym, refl, ◌≢◌, subst, All, false, ap, none, some, ◌++◌, lookup, ◌∙◌, ◌≡◌, List, ℕ, ◌∷◌, [],
}
use gratis.System.Steps.{Reach, Step, start, here, next, receives, moves, reads_up}
use gratis.Text.{str_keys, Str}

-- A reached state in which a new call can be made for a session with nothing on the way to its agent.
pub record Ready {Float : Type 0} (wide : Str → Str) (server_id id : Str) (conn ch : ℕ)
    (s : System Float) : Type 0 where
  pub reached : Reach wide start s
  pub serves : (s.links conn).phase ≡ serving
  pub queue : (s.links conn).queue ≡ []
  pub down : (s.links conn).down ≡ []
  pub inbox : (s.links conn).inbox ≡ []
  pub mapped : lookup str_keys server_id s.server.agents ≡ some conn
  pub new : s.issued ch ≡ none
  pub unsent : s.queued ch ≡ false
  pub unused : All (λ x. x ≢ id) s.server.used

module _ {Float : Type 0} (wide : Str → Str) (server_id id : Str) (conn ch : ℕ) where
  -- From a state to a ready one, with these messages left on the way up.
  abbrev pub Clears : System Float → List (AgentMessage Float) → Type 0
  Clears s up =
      (u : System Float) × Reach wide s u
      × Ready wide server_id id conn ch u
      × ((u.links conn).outbox ≡ [])
      × ((u.links conn).up ≡ up)

  -- handleSession handles its next message.
  receive :
      (m : AgentMessage Float) (rest : List (AgentMessage Float)) (s : System Float)
      → Ready wide server_id id conn ch s
      → (s.links conn).outbox ≡ m ∷ rest
      → (u : System Float) × Reach wide s u
        × Ready wide server_id id conn ch u
        × ((u.links conn).outbox ≡ rest)
        × ((u.links conn).up ≡ (s.links conn).up)
  receive m rest s ready o =
      let (v, h) = Reach-handles conn 0 m (Reach-server wide ready.reached) in
      let l : Link Float = record (s.links conn) { outbox = rest } in
      let u : System Float = record s { server = v; links = update s.links conn l } in
      let st : Step wide s u = receives conn 0 m rest v ready.serves o h refl in
      let at : u.links conn ≡ l = update-same s.links conn l in
      (
        u,
        next here st,
        record {
          reached = next ready.reached st;
          serves = ap (λ x. x.phase) at ∙ ready.serves;
          queue = ap (λ x. x.queue) at ∙ ready.queue;
          down = ap (λ x. x.down) at ∙ ready.down;
          inbox = ap (λ x. x.inbox) at ∙ ready.inbox;
          mapped =
              ap (λ x. lookup str_keys server_id x)
                (handle_agent_message-agents conn 0 m s.server v h)
              ∙ ready.mapped;
          new = ready.new;
          unsent = ready.unsent;
          unused =
              subst (All (λ x. x ≢ id)) (sym (handle_agent_message-used conn 0 m s.server v h))
                ready.unused;
        },
        ap (λ x. x.outbox) at,
        ap (λ x. x.up) at,
      )

  clear_outbox :
      (ms : List (AgentMessage Float)) (s : System Float)
      → Ready wide server_id id conn ch s
      → (s.links conn).outbox ≡ ms
      → Clears s (s.links conn).up
  clear_outbox [] s ready o = (s, here, ready, o, refl)
  clear_outbox (m ∷ ms) s ready o =
      let (u, reach, ready', o', up) = receive m ms s ready o in
      let (u', reach', ready'', o'', up') = clear_outbox ms u ready' o' in
      (u', Reach-Reach wide reach reach', ready'', o'', up' ∙ up)

  -- handleSession reads its next message.
  read :
      (m : AgentMessage Float) (rest : List (AgentMessage Float)) (s : System Float)
      → Ready wide server_id id conn ch s
      → (s.links conn).outbox ≡ []
      → (s.links conn).up ≡ m ∷ rest
      → (u : System Float) × Reach wide s u
        × Ready wide server_id id conn ch u
        × ((u.links conn).up ≡ rest)
  unfolding read_up
  read m rest s ready o p =
      let l : Link Float = record (s.links conn) {
        up = rest;
        outbox = (s.links conn).outbox ++ m ∷ [];
      } in
      let u : System Float = record s { links = update s.links conn l } in
      let st : Step wide s u = moves conn l (reads_up (rw (p, o) refl)) refl in
      let at : u.links conn ≡ l = update-same s.links conn l in
      (
        u,
        next here st,
        record {
          reached = next ready.reached st;
          serves = ap (λ x. x.phase) at ∙ ready.serves;
          queue = ap (λ x. x.queue) at ∙ ready.queue;
          down = ap (λ x. x.down) at ∙ ready.down;
          inbox = ap (λ x. x.inbox) at ∙ ready.inbox;
          mapped = ready.mapped;
          new = ready.new;
          unsent = ready.unsent;
          unused = ready.unused;
        },
        ap (λ x. x.up) at,
      )

  clear_up :
      (ms : List (AgentMessage Float)) (s : System Float)
      → Ready wide server_id id conn ch s
      → (s.links conn).outbox ≡ []
      → (s.links conn).up ≡ ms
      → Clears s []
  clear_up [] s ready o p = (s, here, ready, o, p)
  clear_up (m ∷ ms) s ready o p =
      let (u, reach, ready', p') = read m ms s ready o p in
      let (u', reach', ready'', o', p'') = clear_outbox (u.links conn).outbox u ready' refl in
      let (u'', reach'', ready''', o'', p''') = clear_up ms u' ready'' o' (p'' ∙ p') in
      (u'', Reach-Reach wide (Reach-Reach wide reach reach') reach'', ready''', o'', p''')

  -- Nothing is on the way in either direction.
  pub comes_to_rest :
      (s : System Float)
      → Reach wide start s
      → (s.links conn).phase ≡ serving
      → lookup str_keys server_id s.server.agents ≡ some conn
      → s.issued ch ≡ none
      → s.queued ch ≡ false
      → All (λ x. x ≢ id) s.server.used
      → Clears s []
  comes_to_rest s reach serves mapped new unsent unused =
      let (k, way, q, d, i, _, p) = clear wide (s.links conn) serves in
      let (u, reach', at, same, calls, sent) = Moves-Reach wide {s = s} conn way in
      let ready : Ready wide server_id id conn ch u = record {
        reached = Reach-Reach wide reach reach';
        serves = ap (λ x. x.phase) at ∙ (p ∙ serves);
        queue = ap (λ x. x.queue) at ∙ q;
        down = ap (λ x. x.down) at ∙ d;
        inbox = ap (λ x. x.inbox) at ∙ i;
        mapped = ap (λ x. lookup str_keys server_id x.agents) same ∙ mapped;
        new = ap (λ f. f ch) calls ∙ new;
        unsent = ap (λ f. f ch) sent ∙ unsent;
        unused = subst (λ x. All (λ y. y ≢ id) x.used) (sym same) unused;
      } in
      let (u', reach'', ready', o, _) = clear_outbox (u.links conn).outbox u ready refl in
      let (u'', reach''', ready'', o', p') = clear_up (u'.links conn).up u' ready' o refl in
      (u'', Reach-Reach wide (Reach-Reach wide reach' reach'') reach''', ready'', o', p')
