-- ===== src/Agent/Session/Turns.antt =====
-- agent/internal/rpc/agent.go: the goroutines of `handleCommand`, as they come to Dispatch.
use gratis.Agent.Dispatch.Results.{dispatch-panics_iff, LacksRecord}
use gratis.Agent.Dispatch.{dispatch, Dispatcher}
use gratis.Proto.{CommandResult, Command}
use gratis.Host.{Trace, Env}
use gratis.Text.{Str}
use gratis.Base.{
  subst, ◌∙◌, sym, inr, inl, Option-cases, refl, ◌↔◌, ◌≡◌, zero, suc, not, false, true, some, none,
  Bool, ℕ, Option, List, ◌∷◌, [], ◌&&◌,
}

-- A goroutine comes to its Dispatch: that of the command with this number among those handed on so far
-- by the sessions, what the machine answers, and the calls made before. A number that is too large is
-- no goroutine.
pub record Turn : Type 0 where
  pub number : ℕ
  pub env : Env
  pub calls : Trace

unfoldable pub command_at : List Command → ℕ → Option Command
command_at [] n = none
command_at (c ∷ cs) zero = some c
command_at (c ∷ cs) (suc n) = command_at cs n

abbrev is_panic : Option CommandResult → Bool
is_panic none = true
is_panic (some r) = false

module _ (wide : Str → Str) (d : Dispatcher) where
  -- handleCommand: a panic of Dispatch is recovered nowhere.
  unfoldable pub panics : List Command → Turn → Bool
  unfolding command_at
  panics started turn = elim (command_at started turn.number) [
    | none ↦ false
    | some c ↦ is_panic (dispatch wide d turn.env c turn.calls).0
  ]

  -- None of these goroutines panics.
  pub all_quiet : List Command → List Turn → Bool
  unfolding panics
  all_quiet started [] = true
  all_quiet started (turn ∷ turns) = not (panics started turn) && all_quiet started turns

  is_panic_iff : (o : Option CommandResult) → (is_panic o ≡ true) ↔ (o ≡ none)
  is_panic_iff none = (λ h. refl, λ h. refl)
  is_panic_iff (some r) = (λ h. cc h, λ h. cc h)

  -- The command of the goroutine is an upsert of no record, and the agent has a DNS client.
  abbrev pub IsFatal : List Command → Turn → Type 0
  IsFatal started turn =
      (c : Command) × (command_at started turn.number ≡ some c)
      × LacksRecord wide d turn.env c.payload

  pub panics_iff :
      (started : List Command) (turn : Turn) → (panics started turn ≡ true) ↔ IsFatal started turn
  unfolding panics
  panics_iff started turn = elim (Option-cases (command_at started turn.number)) [
    | inl e ↦ (λ h. let k = rw (panics, e) at h in cc k, λ (c, there, _). cc (e, there))
    | inr (c, e) ↦
        let (forth, back) = dispatch-panics_iff wide d turn.env c turn.calls in
        let (to, from) = is_panic_iff (dispatch wide d turn.env c turn.calls).0 in
        let same : panics started turn ≡ is_panic (dispatch wide d turn.env c turn.calls).0 =
          rw (panics, e) refl in
        (
          λ h. (c, e, forth (to (sym same ∙ h))),
          λ (c', there, lacks).
              let which : c' ≡ c = cc (e, there) in
              same ∙ from (back (subst (λ x. LacksRecord wide d turn.env x.payload) which lacks)),
        )
  ]
