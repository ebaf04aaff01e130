-- ===== src/System/Full.antt =====
-- A run in which calls of SendCommand fill the queue of a session that handles none of it, and the
-- session ends.
use gratis.System.Reached.{Reach-Inv}
use gratis.Api.Server.Steps.{start_command-mapped, initial}
use gratis.System.Stuck.{IsStuck}
use gratis.Api.Server.Pending.{started}
use gratis.Proto.{unset, Command}
use gratis.System.{
  update-same, fresh, empty_link, ended, update, enqueue, Issue, issue, Link, serving, System,
}
use gratis.Api.Server.{unregister_agent, register_agent, ConnectedAgent}
use gratis.Base.{
  ◌∙◌, length-append, All-map_pred, ◌≢◌, true, inr, inl, Option-cases, ◌++◌, insert, arith, ◌<◌,
  All, false, ◌≤◌, nat_keys, some, lookup, refl, ap, zero, none, ◌≡◌, suc, length, ℕ, ◌∷◌, [],
}
use gratis.System.Steps.{Reach, start, here, next, connects, ends, starts, enqueues}
use gratis.Text.{str_eq, str_keys, bytes, Str}

module _ (wide : Str → Str) where
  abbrev N : Type 0
  N = Unit {0}

  abbrev agent : ConnectedAgent N
  agent = record {
    server_id = bytes "srv_1";
    hostname = bytes "host";
    last_metrics = none;
    last_seen = none;
  }

  -- Ids of different lengths.
  abbrev id_of : ℕ → Str
  id_of zero = []
  id_of (suc n) = b'x' ∷ id_of n

  abbrev command_of : ℕ → Command
  command_of n = record { command_id = id_of n; payload = unset }

  length-id_of : (n : ℕ) → length (id_of n) ≡ n
  length-id_of zero = refl
  length-id_of (suc n) = ap suc (length-id_of n)

  -- The calls below `n` have sent their commands, and nobody has taken one.
  record Filled (n : ℕ) (s : System N) : Type 0 where
    pub reached : Reach wide start s
    pub serves : (s.links 7).phase ≡ serving
    pub full : length (s.links 7).queue ≡ n
    pub mapped : lookup str_keys (bytes "srv_1") s.server.agents ≡ some 7
    pub open_session : lookup nat_keys 7 s.server.sessions ≡ some agent
    pub new : (ch : ℕ) → n ≤ ch → (s.issued ch ≡ none) × (s.queued ch ≡ false)
    pub unused : All (λ x. length x < n) s.server.used

  abbrev issue_of : ℕ → Issue
  issue_of n = record { conn = 7; command = command_of n }

  -- The state in which the next call has entered its command.
  abbrev begun : ℕ → System N → System N
  begun n s = issue n (issue_of n) (started (id_of n) n s.server) s

  begun-Reach : (n : ℕ) (s : System N) → Filled n s → Reach wide start (begun n s)
  unfolding issue
  begun-Reach n s f =
      let (new, _) = f.new n (omega arith) in
      let free : lookup nat_keys n s.server.waiters ≡ none =
        elim (Option-cases (lookup nat_keys n s.server.waiters)) [
          | inl gone ↦ gone
          | inr (w, e) ↦
              let (j, p, _) = (Reach-Inv wide f.reached).mine n w e in absurd (cc (p, new))
        ] in
      let unused : All (λ x. x ≢ id_of n) s.server.used =
        All-map_pred (λ x. length x < n) (λ x. x ≢ id_of n)
          (λ x short e. omega (arith, short, ap length e, length-id_of n)) s.server.used f.unused in
      next f.reached (
        starts (bytes "srv_1") n 7 (command_of n) (started (id_of n) n s.server) new unused free
          (start_command-mapped (bytes "srv_1") (id_of n) n 7 s.server f.mapped) refl)

  -- The session with one more command in its queue.
  abbrev longer : ℕ → Link N → Link N
  longer n l = record l { queue = l.queue ++ command_of n ∷ []; sent = l.sent ++ command_of n ∷ [] }

  fill_one : (n : ℕ) (s : System N) → n < 32 → Filled n s → (u : System N) × Filled (suc n) u
  unfolding issue enqueue
  fill_one n s room f =
      let (new, unsent) = f.new n (omega arith) in
      let s' = begun n s in
      let k = longer n (s.links 7) in
      let u : System N = record s' {
        links = update s'.links 7 k;
        queued = update s'.queued n true;
      } in
      let fits : enqueue (command_of n) (s.links 7) ≡ some k = ground (arith, f.full, room) in
      (
        u,
        record {
          reached = next (begun-Reach n s f) (
              enqueues n (issue_of n) k (update-same s.issued n (some (issue_of n))) unsent fits
                refl);
          serves = f.serves;
          full = length-append (s.links 7).queue (command_of n ∷ []) ∙ omega (arith, f.full);
          mapped = f.mapped;
          open_session = f.open_session;
          new = λ ch h.
              let (a, b) = f.new ch (omega (arith, h)) in
              (ground (arith, h, a), ground (arith, h, b));
          unused = (
            omega (arith, length-id_of n),
            All-map_pred (λ x. length x < n) (λ x. length x < suc n) (λ x h. omega (arith, h))
                s.server.used f.unused,
          );
        },
      )

  connected-Filled : (s : System N) × Filled 0 s
  unfolding register_agent lookup insert str_eq bytes
  connected-Filled = (
    record (start {Float = N}) {
      server = register_agent 7 agent initial;
      links = update (λ conn. empty_link fresh) 7 (empty_link serving);
    },
    record {
      reached = next here (connects 7 agent refl refl refl);
      serves = refl;
      full = refl;
      mapped = refl;
      open_session = refl;
      new = λ ch h. (refl, refl);
      unused = tt;
    },
  )

  fill : (n : ℕ) → n ≤ 32 → (s : System N) × Filled n s
  fill zero h = connected-Filled
  fill (suc n) h = let (s, f) = fill n (omega (arith, h)) in fill_one n s (omega (arith, h)) f

  -- The whole system comes to a state in which a call of SendCommand waits for a place in the queue of
  -- a session that has ended.
  call_waits : (s : System N) × (i : Issue) × Reach wide start s × IsStuck 32 i s
  unfolding issue
  call_waits =
      let (s, f) = fill 32 (omega arith) in
      let (_, unsent) = f.new 32 (omega arith) in
      let s' = begun 32 s in
      (
        record s' {
          server = unregister_agent 7 (bytes "srv_1") s'.server;
          links = update s'.links 7 (record (s'.links 7) { phase = ended });
        },
        issue_of 32,
        next (begun-Reach 32 s f) (ends 7 agent f.open_session refl),
        record {
          over = refl;
          full = f.full;
          waits = update-same s.issued 32 (some (issue_of 32));
          unsent = unsent;
        },
      )
