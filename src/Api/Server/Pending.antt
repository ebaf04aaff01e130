-- ===== src/Api/Server/Pending.antt =====
-- Which results reach which calls of SendCommand: the map `pending` of server.go.
use gratis.Text.{str_eq_iff, str_keys, Str}
use gratis.Proto.{CommandResult}
use gratis.Api.Server.{deliver, Waiter, take_result, State, give_up, return_result}
use gratis.Base.{
  lookup-delete, lookup-insert, inr, inl, arith, Option-cases, nat_keys, none, some, ◌≡◌, delete,
  insert, lookup, ℕ, ◌∷◌,
}

-- Every pending id leads to a call that waits for it with an empty channel, and what a channel holds
-- is a result of its own command.
pub record IsConsistent {Float : Type 0} (s : State Float) : Type 0 where
  pub waits :
      (id : Str) (ch : ℕ)
      → lookup str_keys id s.pending ≡ some ch
      → lookup nat_keys ch s.waiters ≡ some (record { command_id = id; buffered = none })
  pub own :
      (ch : ℕ) (w : Waiter) (r : CommandResult)
      → lookup nat_keys ch s.waiters ≡ some w
      → w.buffered ≡ some r
      → r.command_id ≡ w.command_id

abbrev pub waiting : Str → Waiter
waiting id = record { command_id = id; buffered = none }

abbrev pub answered : Str → CommandResult → Waiter
answered id r = record { command_id = id; buffered = some r }

module _ {Float : Type 0} where
  -- The state behind a delivery.
  abbrev pub delivered : CommandResult → ℕ → State Float → State Float
  delivered r ch s = record s {
    pending = delete str_keys r.command_id s.pending;
    waiters = insert nat_keys ch (answered r.command_id r) s.waiters;
  }

  delivered-IsConsistent :
      (r : CommandResult) (ch : ℕ) (s : State Float)
      → IsConsistent s
      → lookup str_keys r.command_id s.pending ≡ some ch
      → IsConsistent (delivered r ch s)
  delivered-IsConsistent r ch s c found = record {
    waits = λ id ch' p. ground (
      arith,
      lookup-delete str_keys r.command_id id s.pending,
      lookup-insert nat_keys ch ch' (answered r.command_id r) s.waiters,
      c.waits id ch',
      c.waits r.command_id ch found,
      str_eq_iff r.command_id id,
    );
    own = λ ch' w r' p q.
        ground (
          arith,
          lookup-insert nat_keys ch ch' (answered r.command_id r) s.waiters,
          c.own ch' w r',
        );
  }

  -- A result that some call waits for is put into that call's empty channel, so the send does not
  -- block; any other result changes nothing. The state stays consistent.
  pub take_result-IsConsistent :
      (r : CommandResult) (s : State Float)
      → IsConsistent s
      → (s' : State Float) × (take_result r s ≡ some s') × IsConsistent s'
  unfolding take_result deliver
  take_result-IsConsistent r s c = elim (Option-cases (lookup str_keys r.command_id s.pending)) [
    | inl e ↦ (s, rw (e, take_result), c)
    | inr (ch, e) ↦ (
      delivered r ch s,
      ground (arith, c.waits r.command_id ch e),
      delivered-IsConsistent r ch s c e,
    )
  ]

  abbrev pub started : Str → ℕ → State Float → State Float
  started id ch s = record s {
    pending = insert str_keys id ch s.pending;
    waiters = insert nat_keys ch (waiting id) s.waiters;
    used = id ∷ s.used;
  }

  -- A new command with a new channel.
  pub started-IsConsistent :
      (id : Str) (ch : ℕ) (s : State Float)
      → IsConsistent s
      → lookup nat_keys ch s.waiters ≡ none
      → IsConsistent (started id ch s)
  started-IsConsistent id ch s c fresh = record {
    waits = λ id' ch' p. ground (
      arith,
      lookup-insert str_keys id id' ch s.pending,
      lookup-insert nat_keys ch ch' (waiting id) s.waiters,
      c.waits id' ch',
      str_eq_iff id id',
    );
    own = λ ch' w r p q.
        ground (arith, lookup-insert nat_keys ch ch' (waiting id) s.waiters, c.own ch' w r);
  }

  -- A call that returns with a result that its channel held.
  pub return_result-IsConsistent :
      (ch : ℕ) (w : Waiter) (r : CommandResult) (s : State Float)
      → IsConsistent s
      → lookup nat_keys ch s.waiters ≡ some w
      → w.buffered ≡ some r
      → IsConsistent (return_result ch s)
  unfolding return_result
  return_result-IsConsistent ch w r s c found held = record {
    waits = λ id' ch' p. ground (arith, lookup-delete nat_keys ch ch' s.waiters, c.waits id' ch' p);
    own = λ ch' w' r' p q. ground (arith, lookup-delete nat_keys ch ch' s.waiters, c.own ch' w' r');
  }

  -- A call that gives up.
  pub give_up-IsConsistent :
      (ch : ℕ) (w : Waiter) (s : State Float)
      → IsConsistent s
      → lookup nat_keys ch s.waiters ≡ some w
      → IsConsistent (give_up ch w.command_id s)
  unfolding give_up
  give_up-IsConsistent ch w s c found = record {
    waits = λ id' ch' p. ground (
      arith,
      lookup-delete str_keys w.command_id id' s.pending,
      lookup-delete nat_keys ch ch' s.waiters,
      c.waits id' ch',
      str_eq_iff w.command_id id',
    );
    own = λ ch' w' r' p q. ground (arith, lookup-delete nat_keys ch ch' s.waiters, c.own ch' w' r');
  }
