-- ===== src/System/Invariant.antt =====
-- What holds of the whole system in every state that it reaches.
use gratis.Proto.{CommandResult}
use gratis.System.Links.Moves.{empty_link-Sound}
use gratis.System.Steps.{start}
use gratis.System.Links.{Truthful, IsSound}
use gratis.System.{Issue, fresh, update, Link, System}
use gratis.Api.Server.{Waiter, State}
use gratis.Text.{Str}
use gratis.Base.{
  subst, arith, ◌==◌, some, inr, Bool-cases, inl, nat_keys, ◌≢◌, ◌⊎◌, lookup, All, ℕ, ◌≡◌, List, [],
  ◌∷◌,
}

-- The id is on the list.
abbrev pub Has : Str → List Str → Type 0
Has id [] = ⊥
Has id (x ∷ xs) = (x ≡ id) ⊎ Has id xs

pub not-Has : (id : Str) (xs : List Str) → All (λ x. x ≢ id) xs → ¬ Has id xs
not-Has id [] h k = k
not-Has id (x ∷ xs) h (inl e) = h.0 e
not-Has id (x ∷ xs) h (inr k) = not-Has id xs h.1 k

pub record Inv {Float : Type 0} (wide : Str → Str) (s : System Float) : Type 0 where
  pub sessions : (conn : ℕ) → IsSound wide s.issued s.queued conn (s.links conn)
  -- a call that waits was issued, with its own id
  pub mine :
      (ch : ℕ) (w : Waiter)
      → lookup nat_keys ch s.server.waiters ≡ some w
      → (i : Issue) × (s.issued ch ≡ some i) × (i.command.command_id ≡ w.command_id)
  pub held :
      (ch : ℕ) (w : Waiter) (r : CommandResult)
      → lookup nat_keys ch s.server.waiters ≡ some w
      → w.buffered ≡ some r
      → Truthful wide s.issued r
  pub unique :
      (ch ch' : ℕ) (i j : Issue)
      → s.issued ch ≡ some i
      → s.issued ch' ≡ some j
      → i.command.command_id ≡ j.command.command_id
      → ch ≡ ch'
  pub known : (ch : ℕ) (i : Issue) → s.issued ch ≡ some i → Has i.command.command_id s.server.used

-- The calls that wait after a step waited before it, with what they hold.
abbrev pub Fewer : {Float : Type 0} → State Float → State Float → Type 0
Fewer s v =
    (ch : ℕ) (w : Waiter)
    → lookup nat_keys ch v.waiters ≡ some w
    → lookup nat_keys ch s.waiters ≡ some w

module _ {Float : Type 0} (wide : Str → Str) where
  pub start-Inv : Inv {Float = Float} wide start
  unfolding lookup
  start-Inv = record {
    sessions = λ conn. empty_link-Sound wide _ _ conn fresh;
    mine = λ ch w e. cc e;
    held = λ ch w r e. cc e;
    unique = λ ch ch' i j e. cc e;
    known = λ ch i e. cc e;
  }

  pub update-Sound :
      (s : System Float) (conn : ℕ) (k : Link Float)
      → Inv wide s
      → IsSound wide s.issued s.queued conn k
      → (c : ℕ) → IsSound wide s.issued s.queued c (update s.links conn k c)
  update-Sound s conn k inv h c = elim (Bool-cases (conn == c)) [
    | inl e ↦
        let same : conn ≡ c = ground (arith, e) in
        rw e (subst (λ x. IsSound wide s.issued s.queued x k) same h)
    | inr e ↦ rw e (inv.sessions c)
  ]

  -- A step of one session and of a server that keeps its calls.
  pub session-Inv :
      (s : System Float) (conn : ℕ) (k : Link Float) (v : State Float)
      → Inv wide s
      → IsSound wide s.issued s.queued conn k
      → Fewer s.server v
      → v.used ≡ s.server.used
      → Inv wide (record s { server = v; links = update s.links conn k })
  session-Inv s conn k v inv h fewer same = record {
    sessions = update-Sound s conn k inv h;
    mine = λ ch w e. inv.mine ch w (fewer ch w e);
    held = λ ch w r e. inv.held ch w r (fewer ch w e);
    unique = inv.unique;
    known = λ ch i e. rw same (inv.known ch i e);
  }
