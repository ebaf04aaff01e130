-- ===== src/System/Refine.antt =====
-- The steps of the server of Api/Server within the whole system.
use gratis.Host.{ok}
use gratis.Api.Server.Steps as Server
use gratis.Api.Server.Steps.{initial}
use gratis.System.Steps.{
  start, Step, Reach, connects, ends, fails, moves, starts, enqueues, receives, returns, times_out,
  here, next,
}
use gratis.System.{issue, System}
use gratis.Text.{Str}
use gratis.Base.{some, ◌∙◌, sym, ap, inr, subst, ◌⊎◌, inl, ◌≡◌}

module _ {Float : Type 0} (wide : Str → Str) where
  -- A step of the system is a step of the server, or the server does not move.
  Step-server :
      {s u : System Float} → Step wide s u → (u.server ≡ s.server) ⊎ Server.Step s.server u.server
  unfolding issue
  Step-server (connects conn a p f e) =
      inr (Server.connects conn a f (ap (λ (x : System Float). x.server) e))
  Step-server (ends conn a f e) =
      inr (Server.disconnects conn a f (ap (λ (x : System Float). x.server) e))
  Step-server (fails conn a k f p h e) =
      inr (Server.disconnects conn a f (ap (λ (x : System Float). x.server) e))
  Step-server (moves conn k m e) = inl (ap (λ (x : System Float). x.server) e)
  Step-server (starts server_id ch conn c v p unused f h e) = inr (
      Server.starts server_id c.command_id ch conn unused f
        (h ∙ ap (λ (x : System Float). ok (conn, x.server)) (sym e)))
  Step-server (enqueues ch i k p q h e) = inl (ap (λ (x : System Float). x.server) e)
  Step-server (receives conn now m rest v p o h e) =
      inr (Server.receives conn now m (h ∙ ap (λ (x : System Float). some x.server) (sym e)))
  Step-server (returns ch w r q f b e) =
      inr (Server.returns ch w r f b (ap (λ (x : System Float). x.server) e))
  Step-server (times_out ch w q f e) =
      inr (Server.times_out ch w f (ap (λ (x : System Float). x.server) e))

  -- Every state of the server that the whole system reaches is reached by the server's own steps.
  pub Reach-server : {s : System Float} → Reach wide start s → Server.Reach initial s.server
  Reach-server here = Server.here
  Reach-server (next r st) = elim (Step-server st) [
    | inl e ↦ subst (Server.Reach initial) (sym e) (Reach-server r)
    | inr t ↦ Server.next (Reach-server r) t
  ]
