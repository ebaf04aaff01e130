-- ===== src/System/Calls.antt =====
-- What a call of SendCommand gets.
use gratis.System.Refine.{Reach-server}
use gratis.Api.Server.Steps.{Reach-IsConsistent}
use gratis.System.Reached.{Reach-Inv}
use gratis.Proto.{CommandResult}
use gratis.Api.Server.{Waiter}
use gratis.System.{Issue, System}
use gratis.Text.{Str}
use gratis.System.Steps.{Answers, start, Reach}
use gratis.Base.{subst, sym, ◌∙◌, some, nat_keys, lookup, ℕ, ◌≡◌}

-- In every state that the whole system reaches, a result that is held for a waiting call of
-- SendCommand is what Dispatch of an agent answers to the command of this call, under its id.
pub Reach-Answers :
    {Float : Type 0} (wide : Str → Str) {s : System Float} (ch : ℕ) (w : Waiter) (r : CommandResult)
    → Reach wide start s
    → lookup nat_keys ch s.server.waiters ≡ some w
    → w.buffered ≡ some r
    → (i : Issue) × (s.issued ch ≡ some i)
      × (r.command_id ≡ i.command.command_id)
      × Answers wide i.command r
Reach-Answers wide {s} ch w r reach e b =
    let inv = Reach-Inv wide reach in
    let own = (Reach-IsConsistent (Reach-server wide reach)).own ch w r e b in
    let (i, p, mine) = inv.mine ch w e in
    let (c, (ch', j, q, command), id, answers) = inv.held ch w r e b in
    let ids : j.command.command_id ≡ i.command.command_id = cc (command, id, own, mine) in
    let same : ch' ≡ ch = inv.unique ch' ch j i q p ids in
    let issue : j ≡ i = cc (q, p, same) in
    let command' : c ≡ i.command = cc (command, issue) in
    (i, p, own ∙ sym mine, subst (λ x. Answers wide x r) command' answers)
