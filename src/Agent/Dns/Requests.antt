-- ===== src/Agent/Dns/Requests.antt =====
-- When the operations of powerdns.go succeed.
use gratis.Host.{http, ok, Json, Trace, ◌>>=◌, Call, Env}
use gratis.Agent.Dns.{
  upsert_rrset, content_type, fqdn, patch_json, zone_json, zone_path, ZoneRecord, upsert_records,
  create_zone, Client, send,
}
use gratis.Text.{bytes, Str}
use gratis.Base.{
  refl, inr, inl, ◌⊎◌, map, ◌++◌, ◌<◌, arith, ◌↔◌, none, some, ◌≡◌, Option, String, List, ◌∷◌, [],
}

-- The server answered the request with a status below 300.
abbrev pub Accepted : Env → Trace → Call → Type 0
Accepted env t c = ((env t c).failure ≡ none) × ((env t c).number < 300)

-- The request that `send` makes.
abbrev pub request : Client → String → Str → Option Json → Call
request c method path body =
    http (bytes method) (c.base_url ++ (bytes "/api/v1" ++ path))
      ((bytes "X-API-Key", c.api_key) ∷ content_type body) body

send-ok_iff :
    (env : Env) (c : Client) (method : String) (path : Str) (body : Option Json) (t : Trace)
    → ((send env c method path body t).0 ≡ ok tt) ↔ Accepted env t (request c method path body)
unfolding send ◌>>=◌
send-ok_iff env c method path body t = (λ h. (ground arith, ground arith), λ h. ground arith)

send_trace :
    (env : Env) (c : Client) (method : String) (path : Str) (body : Option Json) (t : Trace)
    → (send env c method path body t).1 ≡ request c method path body ∷ t
unfolding send ◌>>=◌
send_trace env c method path body t = ground arith

abbrev pub post_request : Client → Str → Call
post_request c zone = request c "POST" (bytes "/servers/localhost/zones") (some (zone_json zone))

abbrev pub patch_request : (Str → Str) → Client → Str → List ZoneRecord → Call
patch_request wide c zone records =
    request c "PATCH" (zone_path zone) (some (patch_json (map (upsert_rrset wide zone) records)))

-- CreateZone succeeds exactly when the zone is accepted and then, where there are records, the one
-- request that carries them all.
create_zone-ok_iff :
    (wide : Str → Str) (env : Env) (c : Client) (zone : Str) (records : List ZoneRecord) (t : Trace)
    → ((create_zone wide env c zone records t).0 ≡ ok tt) ↔ (
        Accepted env t (post_request c (fqdn zone))
        × ((records ≡ [])
            ⊎ Accepted env
                (post_request c (fqdn zone) ∷ t)
                (patch_request wide c (fqdn zone) records)))
unfolding create_zone upsert_records send ◌>>=◌
create_zone-ok_iff wide env c zone [] t =
    (λ h. ((ground arith, ground arith), inl refl), λ h. ground arith)
create_zone-ok_iff wide env c zone (r ∷ records) t =
    (λ h. ((ground arith, ground arith), inr (ground arith, ground arith)), λ h. ground arith)
