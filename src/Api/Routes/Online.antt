-- ===== src/Api/Routes/Online.antt =====
-- Which servers handleListServers and handleGetServer of routes.go show.
use gratis.Api.Server.Pending.{started}
use gratis.Host.{ok}
use gratis.Api.Server.Steps.{start_command-mapped, initial, Reach}
use gratis.Api.Server.{start_command, State, ConnectedAgent}
use gratis.Api.Server.Online.{Reach-IsOnline, IsOpen}
use gratis.Api.Server.Entries.{lookup-All, keys_of-lookup, keys_of, Distinct}
use gratis.Text.{str_keys, Str}
use gratis.Api.Routes.{
  http_error, server_response, find_agent, status, servers, handle_get_server, ServerInfo,
  handle_list_servers, list_agents,
}
use gratis.Base.{
  arith, inr, inl, Option-cases, some, lookup, sym, subst, ◌↔◌, refl, ◌≡◌, ◌≢◌, ℕ, All, List,
  Option, ◌∷◌, [],
}
use mathlib.Core.List.{Memᴰ, map}

-- The ids of a listing.
abbrev pub ids : List ServerInfo → List Str
ids l = map (λ i. i.server_id) l

-- No id stands twice in the list.
abbrev pub Once : List Str → Type 0
Once [] = Unit {0}
Once (x ∷ xs) = All (λ y. y ≢ x) xs × Once xs

keys_of-All :
    {V : Type 0} (k : Str) (m : List (Str × V))
    → All (λ e. e.0 ≢ k) m
    → All (λ y. y ≢ k) (keys_of m)
keys_of-All k [] h = tt
keys_of-All k (e ∷ m) h = (h.0, keys_of-All k m h.1)

keys_of-Once : {V : Type 0} (m : List (Str × V)) → Distinct m → Once (keys_of m)
keys_of-Once [] h = tt
keys_of-Once ((k, v) ∷ m) h = (keys_of-All k m h.0, keys_of-Once m h.1)

module _ {Float : Type 0} where
  list_agents-ids :
      (agents : List (Str × ℕ)) (sessions : List (ℕ × ConnectedAgent Float))
      → All (IsOpen sessions) agents
      → ids (list_agents agents sessions) ≡ keys_of agents
  unfolding list_agents
  list_agents-ids [] sessions h = refl
  list_agents-ids ((id, conn) ∷ agents) sessions h =
      let (a, there, same) = h.0 in
      rw (list_agents, there) (cc (same, list_agents-ids agents sessions h.1))

  module _ (format_time : Option ℕ → Str) {s : State Float} (reach : Reach initial s) where
    get_server-mapped :
        (id : Str)
        → (status (handle_get_server format_time id s) ≡ 200)
          ↔ ((conn : ℕ) × (lookup str_keys id s.agents ≡ some conn))
    unfolding handle_get_server find_agent server_response http_error
    get_server-mapped id = elim (Option-cases (lookup str_keys id s.agents)) [
      | inl e ↦ (λ h. absurd (ground (arith, e)), λ (conn, p). cc (e, p))
      | inr (conn, e) ↦ (
        λ h. (conn, e),
        λ h.
            let (a, there, same) =
              lookup-All (IsOpen s.sessions) id conn s.agents (Reach-IsOnline reach).open_all e in
            ground (arith, e, there),
      )
    ]

    mapped :
        (server_id id : Str) (ch conn : ℕ) (u : State Float)
        → start_command server_id id ch s ≡ ok (conn, u)
        → (conn : ℕ) × (lookup str_keys server_id s.agents ≡ some conn)
    unfolding start_command
    mapped server_id id ch conn u e = elim (Option-cases (lookup str_keys server_id s.agents)) [
      | inl n ↦ absurd (ground (arith, n))
      | inr found ↦ found
    ]

    get_server-started :
        (server_id id : Str) (ch : ℕ)
        → (status (handle_get_server format_time server_id s) ≡ 200)
          ↔ ((conn : ℕ) × (u : State Float) × (start_command server_id id ch s ≡ ok (conn, u)))
    unfolding start_command
    get_server-started server_id id ch =
        let (forth, back) = get_server-mapped server_id in
        (
          λ h.
              let (conn, e) = forth h in
              (conn, started id ch s, start_command-mapped server_id id ch conn s e),
          λ (conn, u, e). back (mapped server_id id ch conn u e),
        )

    -- In every reached state, handleListServers lists no server twice, and lists exactly those that
    -- handleGetServer answers with 200, which are those for which SendCommand finds a session.
    pub Reach-list_servers :
        (l : List ServerInfo) × (handle_list_servers s ≡ servers l)
        × Once (ids l)
        × ((id : Str) → Memᴰ id (ids l) ↔ (status (handle_get_server format_time id s) ≡ 200))
        × ((server_id id : Str) (ch : ℕ)
            → (status (handle_get_server format_time server_id s) ≡ 200)
              ↔ ((conn : ℕ) × (u : State Float) × (start_command server_id id ch s ≡ ok (conn, u))))
    unfolding handle_list_servers
    Reach-list_servers =
        let o = Reach-IsOnline reach in
        let l = list_agents s.agents s.sessions in
        let same : ids l ≡ keys_of s.agents = list_agents-ids s.agents s.sessions o.open_all in
        (
          l,
          refl,
          subst Once (sym same) (keys_of-Once s.agents o.distinct),
          λ id.
              let (forth, back) = keys_of-lookup id s.agents in
              let (forth', back') = get_server-mapped id in
              (
                λ h. back' (forth (subst (λ k. Memᴰ id k) same h)),
                λ h. subst (λ k. Memᴰ id k) (sym same) (back (forth' h)),
              ),
          get_server-started,
        )
