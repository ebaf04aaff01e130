-- ===== src/System/Links/Moves.antt =====
-- Each move of a session keeps what holds of it.
use gratis.System.Links.{Truthful, Honest, Distinct, Issued, Queued, IsSound}
use gratis.Agent.Dispatch.Results.{dispatch_answers}
use gratis.System.Sessions.{
  read_up-eq-some, take_command-eq-some, enqueue-eq-some, fail_outbound-eq-some, read_down-eq-some,
  send_outbound-eq-some,
}
use gratis.System.Steps.{reads_up, beats, answers, takes, reads_down, sends, Move, Answers}
use gratis.System.{
  empty_link, fail_outbound, read_up, Phase, enqueue, take_command, ended, read_down, send_up,
  send_outbound, serving, Link, Issue,
}
use gratis.Text.{Str}
use gratis.Proto.{heartbeat, command_result, CommandResult, AgentMessage, Command}
use gratis.Base.{
  refl, ap, All-split, append_assoc, sym, All-map_pred, subst, ◌∙◌, length-append, some, arith,
  Bool, All-append, ◌≢◌, ◌+◌, All, Option, ◌++◌, ℕ, length, ◌≡◌, List, [], ◌∷◌,
}

Distinct-append :
    (cs : List Command) (c : Command)
    → Distinct cs
    → All (λ d. c.command_id ≢ d.command_id) cs
    → Distinct (cs ++ c ∷ [])
Distinct-append [] c h k = (tt, tt)
Distinct-append (d ∷ cs) c h k =
    (All-append _ cs (c ∷ []) h.0 (k.0, tt), Distinct-append cs c h.1 k.1)

length-snoc {ℓ} : {A : Type ℓ} (xs : List A) (x : A) → length (xs ++ x ∷ []) ≡ length xs + 1
length-snoc xs x = omega (arith, length-append xs (x ∷ []))

shift {ℓ} :
    {A : Type ℓ} (xs : List A) (x : A) (r zs : List A) {ys : List A}
    → ys ≡ x ∷ r
    → xs ++ (ys ++ zs) ≡ (xs ++ x ∷ []) ++ (r ++ zs)
shift xs x r zs e = rw e (sym (append_assoc xs (x ∷ []) (r ++ zs)))

answer-Truthful :
    (wide : Str → Str) (issued : ℕ → Option Issue) (c : Command) (r : CommandResult)
    → Issued issued c
    → Answers wide c r
    → Truthful wide issued r
answer-Truthful wide issued c r i a =
    (c, i, sym (dispatch_answers wide a.dispatcher a.env c a.calls a.answered).0, a)

module _ {Float : Type 0} (wide : Str → Str) (issued : ℕ → Option Issue) (queued : ℕ → Bool)
    (conn : ℕ) where
  abbrev Sound : Link Float → Type 0
  Sound = IsSound wide issued queued conn

  send_outbound-Sound :
      (l k : Link Float) → l.phase ≡ serving → send_outbound l ≡ some k → Sound l → Sound k
  send_outbound-Sound l k p h s =
      let (c, rest, e, q) = send_outbound-eq-some l k h in
      let tail : l.down ++ (l.lost ++ l.queue) ≡ (l.down ++ c ∷ []) ++ (l.lost ++ rest) =
        rw (e, s.kept p) (sym (append_assoc l.down (c ∷ []) rest)) in
      subst Sound (sym q) (record {
        pipeline = s.pipeline ∙ ap (λ x. l.started ++ (l.inbox ++ x)) tail;
        kept = s.kept;
        queue_fits = omega (arith, ap length e, s.queue_fits);
        inbox_fits = s.inbox_fits;
        outbox_fits = s.outbox_fits;
        origin = s.origin;
        working = s.working;
        rising = s.rising;
        risen = s.risen;
        distinct = s.distinct;
      })

  pub fail_outbound-Sound : (l k : Link Float) → fail_outbound l ≡ some k → Sound l → Sound k
  fail_outbound-Sound l k h s =
      let (c, rest, e, q) = fail_outbound-eq-some l k h in
      let tail : l.lost ++ l.queue ≡ (l.lost ++ c ∷ []) ++ rest =
        rw e (sym (append_assoc l.lost (c ∷ []) rest)) in
      subst Sound (sym q) (record {
        pipeline = s.pipeline ∙ ap (λ x. l.started ++ (l.inbox ++ (l.down ++ x))) tail;
        kept = λ p. cc p;
        queue_fits = omega (arith, ap length e, s.queue_fits);
        inbox_fits = s.inbox_fits;
        outbox_fits = s.outbox_fits;
        origin = s.origin;
        working = s.working;
        rising = s.rising;
        risen = s.risen;
        distinct = s.distinct;
      })

  read_down-Sound : (l k : Link Float) → read_down l ≡ some k → Sound l → Sound k
  read_down-Sound l k h s =
      let (c, rest, e, room, q) = read_down-eq-some l k h in
      subst Sound (sym q) (record {
        pipeline =
            s.pipeline ∙ ap (λ x. l.started ++ x) (shift l.inbox c rest (l.lost ++ l.queue) e);
        kept = s.kept;
        queue_fits = s.queue_fits;
        inbox_fits = omega (arith, length-snoc l.inbox c);
        outbox_fits = s.outbox_fits;
        origin = s.origin;
        working = s.working;
        rising = s.rising;
        risen = s.risen;
        distinct = s.distinct;
      })

  inbox-Issued : (l : Link Float) → Sound l → All (Issued issued) l.inbox
  inbox-Issued l s =
      let all = subst (All (Queued issued queued conn)) s.pipeline s.origin in
      let behind = (All-split _ l.started (l.inbox ++ (l.down ++ (l.lost ++ l.queue))) all).1 in
      All-map_pred (Queued issued queued conn) (Issued issued)
        (λ c (ch, p, q). (ch, record { conn = conn; command = c }, p, refl)) l.inbox
        (All-split _ l.inbox (l.down ++ (l.lost ++ l.queue)) behind).0

  take_command-Sound : (l k : Link Float) → take_command l ≡ some k → Sound l → Sound k
  take_command-Sound l k h s =
      let (c, rest, e, q) = take_command-eq-some l k h in
      let inbox = subst (All (Issued issued)) e (inbox-Issued l s) in
      subst Sound (sym q) (record {
        pipeline = s.pipeline ∙ shift l.started c rest (l.down ++ (l.lost ++ l.queue)) e;
        kept = s.kept;
        queue_fits = s.queue_fits;
        inbox_fits = omega (arith, ap length e, s.inbox_fits);
        outbox_fits = s.outbox_fits;
        origin = s.origin;
        working = (inbox.0, s.working);
        rising = s.rising;
        risen = s.risen;
        distinct = s.distinct;
      })

  read_up-Sound : (l k : Link Float) → read_up l ≡ some k → Sound l → Sound k
  read_up-Sound l k h s =
      let (m, rest, e, room, q) = read_up-eq-some l k h in
      let rising = subst (All (Honest wide issued)) e s.rising in
      subst Sound (sym q) (record {
        pipeline = s.pipeline;
        kept = s.kept;
        queue_fits = s.queue_fits;
        inbox_fits = s.inbox_fits;
        outbox_fits = omega (arith, length-snoc l.outbox m);
        origin = s.origin;
        working = s.working;
        rising = rising.1;
        risen = All-append (Honest wide issued) l.outbox (m ∷ []) s.risen (rising.0, tt);
        distinct = s.distinct;
      })

  -- A message to the server, where the goroutines that run are `left`.
  send_up-Sound :
      (l : Link Float) (m : AgentMessage Float) (left : List Command)
      → All (Issued issued) left
      → Honest wide issued m
      → Sound l
      → Sound (send_up m (record l { running = left }))
  unfolding send_up
  send_up-Sound l m left w h s = record {
    pipeline = s.pipeline;
    kept = s.kept;
    queue_fits = s.queue_fits;
    inbox_fits = s.inbox_fits;
    outbox_fits = s.outbox_fits;
    origin = s.origin;
    working = w;
    rising = All-append (Honest wide issued) l.up (m ∷ []) s.rising (h, tt);
    risen = s.risen;
    distinct = s.distinct;
  }

  -- The server has taken the first message.
  pub receive-Sound :
      (l : Link Float) (m : AgentMessage Float) (rest : List (AgentMessage Float))
      → l.outbox ≡ m ∷ rest
      → Sound l
      → Sound (record l { outbox = rest }) × Honest wide issued m
  receive-Sound l m rest e s =
      let risen = subst (All (Honest wide issued)) e s.risen in
      (
        record {
          pipeline = s.pipeline;
          kept = s.kept;
          queue_fits = s.queue_fits;
          inbox_fits = s.inbox_fits;
          outbox_fits = omega (arith, ap length e, s.outbox_fits);
          origin = s.origin;
          working = s.working;
          rising = s.rising;
          risen = risen.1;
          distinct = s.distinct;
        },
        risen.0,
      )

  -- The end of the session, and a session without messages.
  pub end-Sound : (l : Link Float) → Sound l → Sound (record l { phase = ended })
  end-Sound l s = record {
    pipeline = s.pipeline;
    kept = λ p. cc p;
    queue_fits = s.queue_fits;
    inbox_fits = s.inbox_fits;
    outbox_fits = s.outbox_fits;
    origin = s.origin;
    working = s.working;
    rising = s.rising;
    risen = s.risen;
    distinct = s.distinct;
  }

  pub empty_link-Sound : (p : Phase) → Sound (empty_link p)
  empty_link-Sound p = record {
    pipeline = refl;
    kept = λ _. refl;
    queue_fits = omega arith;
    inbox_fits = omega arith;
    outbox_fits = omega arith;
    origin = tt;
    working = tt;
    rising = tt;
    risen = tt;
    distinct = tt;
  }

  pub Move-Sound : (l k : Link Float) → Move wide l k → Sound l → Sound k
  Move-Sound l k (sends p h) s = send_outbound-Sound l k p h s
  Move-Sound l k (reads_down h) s = read_down-Sound l k h s
  Move-Sound l k (takes h) s = take_command-Sound l k h s
  Move-Sound l k (answers before after c r e a q) s =
      let (front, back) =
        All-split _ before (c ∷ after) (subst (All (Issued issued)) e s.working) in
      subst Sound (sym q) (
        send_up-Sound l (command_result r) (before ++ after)
          (All-append (Issued issued) before after front back.1)
          (answer-Truthful wide issued c r back.0 a) s)
  Move-Sound l k (beats h q) s =
      subst Sound (sym q) (send_up-Sound l (heartbeat h) l.running s.working tt s)
  Move-Sound l k (reads_up h) s = read_up-Sound l k h s

  -- The send of a call, whose id none of those sent has.
  pub enqueue-Sound :
      (c : Command) (l k : Link Float)
      → enqueue c l ≡ some k
      → Queued issued queued conn c
      → All (λ d. c.command_id ≢ d.command_id) l.sent
      → Sound l
      → Sound k
  enqueue-Sound c l k h o n s =
      let (room, q) = enqueue-eq-some c l k h in
      let line : l.sent ++ c ∷ []
          ≡ l.started ++ (l.inbox ++ (l.down ++ (l.lost ++ (l.queue ++ c ∷ [])))) =
        rw s.pipeline (simp append_assoc) in
      subst Sound (sym q) (record {
        pipeline = line;
        kept = s.kept;
        queue_fits = omega (arith, length-snoc l.queue c);
        inbox_fits = s.inbox_fits;
        outbox_fits = s.outbox_fits;
        origin = All-append (Queued issued queued conn) l.sent (c ∷ []) s.origin (o, tt);
        working = s.working;
        rising = s.rising;
        risen = s.risen;
        distinct = Distinct-append l.sent c s.distinct n;
      })
