-- ===== src/System/Drain.antt =====
-- Moves of a session that start what was sent to it.
use gratis.System.Links.{IsSound}
use gratis.System.Reached.{Reach-Inv}
use gratis.Proto.{Command}
use gratis.System.Steps.{reads_down, here, next, Reach, sends, moves, takes, start, Move}
use gratis.System.{
  update-same, update, serving, send_outbound, read_down, Link, take_command, System,
}
use gratis.Base.{append-nil, ap, sym, subst, refl, ◌++◌, ◌∙◌, ℕ, List, ◌≡◌, ◌∷◌, []}
use gratis.Text.{Str}

-- Some moves of one session, one behind the other.
pub data Moves {Float : Type 0} (wide : Str → Str) (l : Link Float) : Link Float → Type 0 where
  rest : Moves wide l l
  then : {k m : Link Float} → Moves wide l k → Move wide k m → Moves wide l m

module _ {Float : Type 0} (wide : Str → Str) where
  Moves-then : {l k m : Link Float} → Moves wide l k → Moves wide k m → Moves wide l m
  Moves-then p rest = p
  Moves-then p (then q m) = then (Moves-then p q) m

  -- Moves that start everything up to some point of the way, and leave `queue` and `down` there.
  abbrev pub Clears : Link Float → List Command → List Command → Type 0
  Clears l queue down =
      (k : Link Float) × Moves wide l k
      × (k.queue ≡ queue)
      × (k.down ≡ down)
      × (k.inbox ≡ [])
      × (k.sent ≡ l.sent)
      × (k.phase ≡ l.phase)

  clear_inbox : (cs : List Command) (l : Link Float) → l.inbox ≡ cs → Clears l l.queue l.down
  unfolding take_command
  clear_inbox [] l e = (l, rest, refl, refl, e, refl, refl)
  clear_inbox (c ∷ cs) l e =
      let l' : Link Float = record l {
        inbox = cs;
        started = l.started ++ c ∷ [];
        running = c ∷ l.running;
      } in
      let (k, way, q, d, i, s, p) = clear_inbox cs l' refl in
      (k, Moves-then (then rest (takes (rw e refl))) way, q, d, i, s, p)

  clear_down :
      (cs : List Command) (l : Link Float) → l.inbox ≡ [] → l.down ≡ cs → Clears l l.queue []
  unfolding read_down
  clear_down [] l no_inbox e = (l, rest, refl, e, no_inbox, refl, refl)
  clear_down (c ∷ cs) l no_inbox e =
      let l' : Link Float = record l { down = cs; inbox = l.inbox ++ c ∷ [] } in
      let (k, way, q, d, i, s, p) = clear_inbox (c ∷ []) l' (ap (λ x. x ++ c ∷ []) no_inbox) in
      let (k', way', q', d', i', s', p') = clear_down cs k i d in
      (
        k',
        Moves-then (Moves-then (then rest (reads_down (rw (e, no_inbox) refl))) way) way',
        q' ∙ q,
        d',
        i',
        s' ∙ s,
        p' ∙ p,
      )

  clear_queue :
      (cs : List Command) (l : Link Float)
      → l.phase ≡ serving
      → l.inbox ≡ []
      → l.down ≡ []
      → l.queue ≡ cs
      → Clears l [] []
  unfolding send_outbound
  clear_queue [] l serves no_inbox no_down e = (l, rest, e, no_down, no_inbox, refl, refl)
  clear_queue (c ∷ cs) l serves no_inbox no_down e =
      let l' : Link Float = record l { queue = cs; down = l.down ++ c ∷ [] } in
      let (k, way, q, d, i, s, p) = clear_down (l.down ++ c ∷ []) l' no_inbox refl in
      let (k', way', q', d', i', s', p') = clear_queue cs k (p ∙ serves) i d q in
      (
        k',
        Moves-then (Moves-then (then rest (sends serves (rw e refl))) way) way',
        q',
        d',
        i',
        s' ∙ s,
        p' ∙ p,
      )

  pub clear : (l : Link Float) → l.phase ≡ serving → Clears l [] []
  clear l serves =
      let (k, way, q, d, i, s, p) = clear_inbox l.inbox l refl in
      let (k', way', q', d', i', s', p') = clear_down k.down k i refl in
      let (k'', way'', q'', d'', i'', s'', p'') =
        clear_queue k'.queue k' (p' ∙ (p ∙ serves)) i' d' refl in
      (k'', Moves-then (Moves-then way way') way'', q'', d'', i'', s'' ∙ (s' ∙ s), p'' ∙ (p' ∙ p))

  -- The moves of a session are steps of the system, which leave the server and the calls as they are.
  pub Moves-Reach :
      {s : System Float} (conn : ℕ) {k : Link Float}
      → Moves wide (s.links conn) k
      → (u : System Float) × Reach wide s u
        × (u.links conn ≡ k)
        × (u.server ≡ s.server)
        × (u.issued ≡ s.issued)
        × (u.queued ≡ s.queued)
  Moves-Reach {s} conn rest = (s, here, refl, refl, refl, refl)
  Moves-Reach {s} conn (then {k = k} {m = m} way move) =
      let (u, reach, e, same, calls, sent) = Moves-Reach {s = s} conn way in
      (
        record u { links = update u.links conn m },
        next reach (moves conn m (subst (λ x. Move wide x m) (sym e) move) refl),
        update-same u.links conn m,
        same,
        calls,
        sent,
      )

  pub Reach-Reach : {s t u : System Float} → Reach wide s t → Reach wide t u → Reach wide s u
  Reach-Reach r here = r
  Reach-Reach r (next r' st) = next (Reach-Reach r r') st

-- From every state that the whole system reaches in which a session is served, there are steps to a
-- state in which its agent has started every command that was sent to the session before, in the
-- order of their sending.
pub Reach-drains :
    {Float : Type 0} (wide : Str → Str) {s : System Float} (conn : ℕ)
    → Reach wide start s
    → (s.links conn).phase ≡ serving
    → (u : System Float) × Reach wide s u × ((u.links conn).started ≡ (s.links conn).sent)
Reach-drains wide {s} conn reach serves =
    let (k, way, q, d, i, same, p) = clear wide (s.links conn) serves in
    let (u, reach', e, _, _, _) = Moves-Reach wide {s = s} conn way in
    let sound = (Reach-Inv wide (Reach-Reach wide reach reach')).sessions conn in
    let sound' : IsSound wide u.issued u.queued conn k =
      subst (IsSound wide u.issued u.queued conn) e sound in
    let lost = sound'.kept (p ∙ serves) in
    let all : k.sent ≡ k.started ++ [] = sound'.pipeline ∙ rw (q, d, i, lost) refl in
    (u, reach', ap (λ l. l.started) e ∙ (sym (append-nil k.started) ∙ (sym all ∙ same)))
