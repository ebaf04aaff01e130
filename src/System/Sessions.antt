-- ===== src/System/Sessions.antt =====
-- What each operation of a session does to its channels and streams.
use gratis.Proto.{AgentMessage, Command}
use gratis.System.{
  ended, Link, enqueue, take_command, read_up, fail_outbound, read_down, send_outbound,
}
use gratis.Base.{inr, inl, arith, List-cases, ◌<◌, length, ◌++◌, some, ◌≡◌, List, [], ◌∷◌}

module _ {Float : Type 0} where
  pub send_outbound-eq-some :
      (l k : Link Float)
      → send_outbound l ≡ some k
      → (c : Command) × (rest : List Command) × (l.queue ≡ c ∷ rest)
        × (k ≡ record l { queue = rest; down = l.down ++ c ∷ [] })
  unfolding send_outbound
  send_outbound-eq-some l k h = elim (List-cases l.queue) [
    | inl e ↦ cc (e, h)
    | inr (c, rest, e) ↦ (c, rest, e, cc (e, h))
  ]

  pub fail_outbound-eq-some :
      (l k : Link Float)
      → fail_outbound l ≡ some k
      → (c : Command) × (rest : List Command) × (l.queue ≡ c ∷ rest)
        × (k ≡ record l { phase = ended; queue = rest; lost = l.lost ++ c ∷ [] })
  unfolding fail_outbound
  fail_outbound-eq-some l k h = elim (List-cases l.queue) [
    | inl e ↦ cc (e, h)
    | inr (c, rest, e) ↦ (c, rest, e, cc (e, h))
  ]

  pub read_down-eq-some :
      (l k : Link Float)
      → read_down l ≡ some k
      → (c : Command) × (rest : List Command) × (l.down ≡ c ∷ rest)
        × (length l.inbox < 8)
        × (k ≡ record l { down = rest; inbox = l.inbox ++ c ∷ [] })
  unfolding read_down
  read_down-eq-some l k h = elim (List-cases l.down) [
    | inl e ↦ cc (e, h)
    | inr (c, rest, e) ↦ (c, rest, e, ground (arith, e), ground (arith, e))
  ]

  pub take_command-eq-some :
      (l k : Link Float)
      → take_command l ≡ some k
      → (c : Command) × (rest : List Command) × (l.inbox ≡ c ∷ rest)
        × (k ≡ record l { inbox = rest; started = l.started ++ c ∷ []; running = c ∷ l.running })
  unfolding take_command
  take_command-eq-some l k h = elim (List-cases l.inbox) [
    | inl e ↦ cc (e, h)
    | inr (c, rest, e) ↦ (c, rest, e, cc (e, h))
  ]

  pub read_up-eq-some :
      (l k : Link Float)
      → read_up l ≡ some k
      → (m : AgentMessage Float) × (rest : List (AgentMessage Float)) × (l.up ≡ m ∷ rest)
        × (length l.outbox < 8)
        × (k ≡ record l { up = rest; outbox = l.outbox ++ m ∷ [] })
  unfolding read_up
  read_up-eq-some l k h = elim (List-cases l.up) [
    | inl e ↦ cc (e, h)
    | inr (m, rest, e) ↦ (m, rest, e, ground (arith, e), ground (arith, e))
  ]

  pub enqueue-eq-some :
      (c : Command) (l k : Link Float)
      → enqueue c l ≡ some k
      → (length l.queue < 32)
        × (k ≡ record l { queue = l.queue ++ c ∷ []; sent = l.sent ++ c ∷ [] })
  unfolding enqueue
  enqueue-eq-some c l k h = (ground arith, ground arith)
