-- ===== src/Api/Store/Requests.antt =====
-- Sequences of requests to the store of api/internal/store/store.go.
use gratis.Api.Store.{authenticate, create_token, Postgres}
use gratis.Host.{Result}
use gratis.Base.{ℕ, List, ◌∷◌, []}
use gratis.Text.{Str}

-- What reaches the store: an admin's request for a token, and a registration.
pub data Request : Type 0 where
  creates : Result Str → ℕ → Request
  registers : (token hostname raw : Str) (now : ℕ) → Request

module _ (pg : Postgres) (sha256 : Str → Str) where
  unfoldable pub serve : List Request → pg.Db → pg.Db
  serve [] db = db
  serve (creates raw now ∷ rest) db = serve rest (create_token pg sha256 raw now db).1
  serve (registers token hostname raw now ∷ rest) db =
      serve rest (authenticate pg sha256 token hostname raw now db).1
