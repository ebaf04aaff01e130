-- ===== src/System/Order.antt =====
-- In which order, and how often, an agent starts the commands that it was sent.
use gratis.System.Reached.{Reach-Inv}
use gratis.System.Invariant.{Inv}
use gratis.System.Links.{Queued, Distinct}
use gratis.Proto.{Command}
use gratis.System.{System}
use gratis.Text.{Str}
use gratis.System.Steps.{start, Reach}
use gratis.Base.{
  ap, ◌∙◌, sym, some, All-map_pred, subst, All-split, All, ◌≢◌, ◌++◌, ℕ, List, ◌∷◌, [], ◌≡◌,
}

Distinct-front : (cs ds : List Command) → Distinct (cs ++ ds) → Distinct cs
Distinct-front [] ds h = tt
Distinct-front (c ∷ cs) ds h = ((All-split _ cs ds h.0).0, Distinct-front cs ds h.1)

-- In every state that the whole system reaches, the commands that the agent of a session has started
-- are the first of those sent to the session, in the order of their sending, and no two of them have
-- one id: none is started twice.
pub Reach-starts_in_order :
    {Float : Type 0} (wide : Str → Str) {s : System Float} (conn : ℕ)
    → Reach wide start s
    → ((rest : List Command) × ((s.links conn).sent ≡ (s.links conn).started ++ rest))
      × Distinct (s.links conn).started
Reach-starts_in_order wide {s} conn reach =
    let sound = (Reach-Inv wide reach).sessions conn in
    let rest =
      (s.links conn).inbox
      ++ ((s.links conn).down ++ ((s.links conn).lost ++ (s.links conn).queue)) in
    (
      (rest, sound.pipeline),
      Distinct-front (s.links conn).started rest (subst Distinct sound.pipeline sound.distinct),
    )

started-Queued :
    {Float : Type 0} (wide : Str → Str) {s : System Float} (conn : ℕ)
    → Inv wide s
    → All (Queued s.issued s.queued conn) (s.links conn).started
started-Queued wide {s} conn inv =
    let sound = inv.sessions conn in
    (All-split _ (s.links conn).started _
      (subst (All (Queued s.issued s.queued conn)) sound.pipeline sound.origin)).0

-- In every state that the whole system reaches, no id of a command that one session's agent has
-- started is the id of a command that another session's agent has started.
Reach-starts_once :
    {Float : Type 0} (wide : Str → Str) {s : System Float} (conn conn' : ℕ)
    → Reach wide start s
    → conn ≢ conn'
    → All
        (λ c. All (λ d. c.command_id ≢ d.command_id) (s.links conn').started)
        (s.links conn).started
Reach-starts_once wide {s} conn conn' reach apart =
    let inv = Reach-Inv wide reach in
    All-map_pred (Queued s.issued s.queued conn) _
      (λ c (ch, p, q).
        All-map_pred (Queued s.issued s.queued conn') (λ d. c.command_id ≢ d.command_id)
          (λ d (ch', p', q') same.
            let one : ch ≡ ch' =
              inv.unique ch ch' (record { conn = conn; command = c })
                (record { conn = conn'; command = d }) p p' same in
            let e : some (record { conn = conn; command = c })
                ≡ some (record { conn = conn'; command = d }) =
              sym p ∙ (ap s.issued one ∙ p') in
            apart (cc e))
          (s.links conn').started (started-Queued wide conn' inv))
      (s.links conn).started (started-Queued wide conn inv)
