-- ===== src/System/Stuck.antt =====
-- A call of SendCommand for a session that has ended.
use gratis.System.Sessions.{
  enqueue-eq-some, read_up-eq-some, take_command-eq-some, read_down-eq-some,
}
use gratis.Api.Server.{State}
use gratis.Text.{Str}
use gratis.System.{enqueue, update, Link, send_up, System, issue, ended, Issue, fresh, serving}
use gratis.System.Steps.{
  Move, Step, Reach, connects, ends, fails, moves, starts, enqueues, receives, returns, times_out,
  here, next, sends, reads_down, takes, answers, beats, reads_up,
}
use gratis.Base.{
  true, inr, refl, inl, ap, arith, ◌==◌, ◌∙◌, false, Bool-cases, some, sym, subst, length, ◌≢◌, ℕ,
  ◌≡◌,
}

-- The session has ended with a full queue, and the call has not sent its command to it.
pub record IsStuck {Float : Type 0} (ch : ℕ) (i : Issue) (s : System Float) : Type 0 where
  pub over : (s.links i.conn).phase ≡ ended
  pub full : length (s.links i.conn).queue ≡ 32
  pub waits : s.issued ch ≡ some i
  pub unsent : s.queued ch ≡ false

fresh-ne-ended : fresh ≢ ended
fresh-ne-ended e = cc e

serving-ne-ended : serving ≢ ended
serving-ne-ended e = cc e

module _ {Float : Type 0} (wide : Str → Str) (ch : ℕ) (i : Issue) where
  -- No move of an ended session takes from its queue.
  Move-ended :
      (l k : Link Float) → Move wide l k → l.phase ≡ ended → (k.phase ≡ ended) × (k.queue ≡ l.queue)
  unfolding send_up
  Move-ended l k (sends p h) e = cc (p, e)
  Move-ended l k (reads_down h) e =
      let (c, rest, _, _, q) = read_down-eq-some l k h in ground (arith, q, e)
  Move-ended l k (takes h) e =
      let (c, rest, _, q) = take_command-eq-some l k h in ground (arith, q, e)
  Move-ended l k (answers before after c r _ _ q) e = ground (arith, q, e)
  Move-ended l k (beats h q) e = ground (arith, q, e)
  Move-ended l k (reads_up h) e =
      let (m, rest, _, _, q) = read_up-eq-some l k h in ground (arith, q, e)

  -- A change of some session that keeps this one's end and queue.
  links-IsStuck :
      (s : System Float) (v : State Float) (conn : ℕ) (k : Link Float)
      → IsStuck ch i s
      → (conn ≡ i.conn → (k.phase ≡ ended) × (length k.queue ≡ 32))
      → IsStuck ch i (record s { server = v; links = update s.links conn k })
  links-IsStuck s v conn k stuck keeps = elim (Bool-cases (conn == i.conn)) [
    | inl e ↦
        let (over, full) = keeps (ground (arith, e)) in
        record { over = rw e over; full = rw e full; waits = stuck.waits; unsent = stuck.unsent }
    | inr e ↦ record {
      over = rw e stuck.over;
      full = rw e stuck.full;
      waits = stuck.waits;
      unsent = stuck.unsent;
    }
  ]

  -- Another call's send goes to another session.
  enqueue-IsStuck :
      (s : System Float) (ch' : ℕ) (j : Issue) (k : Link Float)
      → IsStuck ch i s
      → s.issued ch' ≡ some j
      → enqueue j.command (s.links j.conn) ≡ some k
      → IsStuck ch i
          (record s { links = update s.links j.conn k; queued = update s.queued ch' true })
  enqueue-IsStuck s ch' j k stuck p h =
      let (room, _) = enqueue-eq-some j.command (s.links j.conn) k h in
      elim (Bool-cases (j.conn == i.conn)) [
        | inl e ↦
            let same : j.conn ≡ i.conn = ground (arith, e) in
            absurd (ground (arith, room, stuck.full, ap (λ c. length (s.links c).queue) same))
        | inr e ↦ elim (Bool-cases (ch' == ch)) [
          | inl q ↦
              let one : ch' ≡ ch = ground (arith, q) in
              let both : some j ≡ some i = sym p ∙ (ap s.issued one ∙ stuck.waits) in
              absurd (ground (arith, e, both))
          | inr q ↦ record {
            over = rw e stuck.over;
            full = rw e stuck.full;
            waits = stuck.waits;
            unsent = rw q stuck.unsent;
          }
        ]
      ]

  Step-IsStuck : {s u : System Float} → Step wide s u → IsStuck ch i s → IsStuck ch i u
  unfolding issue
  Step-IsStuck {s} (connects conn a p f e) stuck = subst (IsStuck ch i) (sym e) (
      links-IsStuck s _ conn _ stuck
        (λ same. absurd (fresh-ne-ended (sym p ∙ (ap (λ c. (s.links c).phase) same ∙ stuck.over)))))
  Step-IsStuck {s} (ends conn a f e) stuck = subst (IsStuck ch i) (sym e) (
      links-IsStuck s _ conn _ stuck
        (λ same. (refl, ap (λ c. length (s.links c).queue) same ∙ stuck.full)))
  Step-IsStuck {s} (fails conn a k f p h e) stuck = subst (IsStuck ch i) (sym e) (
      links-IsStuck s _ conn k stuck (λ same.
        absurd (serving-ne-ended (sym p ∙ (ap (λ c. (s.links c).phase) same ∙ stuck.over)))))
  Step-IsStuck {s} (moves conn k m e) stuck = subst (IsStuck ch i) (sym e) (
      links-IsStuck s s.server conn k stuck (λ same.
        let (over, queue) =
          Move-ended (s.links conn) k m (ap (λ c. (s.links c).phase) same ∙ stuck.over) in
        (over, ap length queue ∙ (ap (λ c. length (s.links c).queue) same ∙ stuck.full))))
  Step-IsStuck {s} (starts server_id ch' conn c v p unused f h e) stuck =
      subst (IsStuck ch i) (sym e) (record {
        over = stuck.over;
        full = stuck.full;
        waits = ground (arith, stuck.waits, p);
        unsent = stuck.unsent;
      })
  Step-IsStuck {s} (enqueues ch' j k p q h e) stuck =
      subst (IsStuck ch i) (sym e) (enqueue-IsStuck s ch' j k stuck p h)
  Step-IsStuck {s} (receives conn now m rest v p o h e) stuck = subst (IsStuck ch i) (sym e) (
      links-IsStuck s v conn _ stuck (λ same.
        absurd (serving-ne-ended (sym p ∙ (ap (λ c. (s.links c).phase) same ∙ stuck.over)))))
  Step-IsStuck {s} (returns ch' w r q f b e) stuck =
      subst (IsStuck ch i) (sym e) (record {
        over = stuck.over;
        full = stuck.full;
        waits = stuck.waits;
        unsent = stuck.unsent;
      })
  Step-IsStuck {s} (times_out ch' w q f e) stuck =
      subst (IsStuck ch i) (sym e) (record {
        over = stuck.over;
        full = stuck.full;
        waits = stuck.waits;
        unsent = stuck.unsent;
      })

  -- A call of SendCommand that has looked up a session, and finds its queue full when the session has
  -- ended, never gets its command into the queue, whatever else happens: it neither returns nor times
  -- out, since the wait with its timeout begins behind the send.
  pub Reach-IsStuck : {s u : System Float} → Reach wide s u → IsStuck ch i s → IsStuck ch i u
  Reach-IsStuck here stuck = stuck
  Reach-IsStuck (next r st) stuck = Step-IsStuck st (Reach-IsStuck r stuck)
