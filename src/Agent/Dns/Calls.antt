-- ===== src/Agent/Dns/Calls.antt =====
-- The calls that dns/powerdns.go makes.
use gratis.Host.Rules.{
  Issues-pure, Issues-if, Issues-wrap, Issues-bind, Issues-mono, issues_rules, Issues,
}
use gratis.Text.{bytes, Str}
use gratis.Agent.Dns.{
  content_type, zone_json, patch_json, fqdn, delete_rrset, zone_path, upsert_rrset, upsert_records,
  Rrset, ZoneRecord, upsert_record, send, delete_zone, delete_record, create_zone, Client,
}
use gratis.Host.{http, Call, Json, Env}
use gratis.Base.{length, ltb, map, ◌++◌, [], none, some, Option, List, String, ◌∷◌}

-- A request below the client's URL, with its key.
pub data DnsCall (c : Client) (method : String) (path : Str) (body : Option Json)
    : Call → Type 0 where
  requests : DnsCall c method path body (
      http
        (bytes method)
        (c.base_url ++ (bytes "/api/v1" ++ path))
        ((bytes "X-API-Key", c.api_key) ∷ content_type body)
        body)

-- A request that changes these records of a zone.
abbrev pub Patches : Client → Str → List Rrset → Call → Type 0
Patches c zone sets = DnsCall c "PATCH" (zone_path (fqdn zone)) (some (patch_json sets))

-- The requests of CreateZone: the zone is made, and its records, if any, are set.
pub data ZoneCall (wide : Str → Str) (c : Client) (zone : Str) (records : List ZoneRecord)
    : Call → Type 0 where
  makes :
      (k : Call)
      → DnsCall c "POST" (bytes "/servers/localhost/zones") (some (zone_json (fqdn zone))) k
      → ZoneCall wide c zone records k
  fills :
      (k : Call)
      → Patches c zone (map (upsert_rrset wide (fqdn zone)) records) k
      → ZoneCall wide c zone records k

module _ (env : Env) (c : Client) where
  send-DnsCall :
      (method : String) (path : Str) (body : Option Json)
      → Issues (DnsCall c method path body) (send env c method path body)
  unfolding send
  send-DnsCall method path body = search (issues_rules, requests) depth 12

  pub delete_zone-DnsCall :
      (zone : Str)
      → Issues (DnsCall c "DELETE" (zone_path (fqdn zone)) none) (delete_zone env c zone)
  unfolding delete_zone
  delete_zone-DnsCall zone = search (issues_rules, send-DnsCall) depth 12

  module _ (wide : Str → Str) where
    pub create_zone-ZoneCall :
        (zone : Str) (records : List ZoneRecord)
        → Issues (ZoneCall wide c zone records) (create_zone wide env c zone records)
    unfolding create_zone upsert_records
    create_zone-ZoneCall zone records =
        Issues-bind _ _ (Issues-wrap _ _ (Issues-mono (λ k. makes k) (send-DnsCall "POST" _ _)))
          λ _.
            Issues-if (ltb 0 (length records)) _ _
              (λ _. Issues-mono (λ k. fills k) (send-DnsCall "PATCH" _ _)) (λ _. Issues-pure tt)

    pub upsert_record-Patches :
        (zone : Str) (r : ZoneRecord)
        → Issues
            (Patches c zone (upsert_rrset wide (fqdn zone) r ∷ []))
            (upsert_record wide env c zone r)
    unfolding upsert_record upsert_records
    upsert_record-Patches zone r = send-DnsCall "PATCH" _ _

    pub delete_record-Patches :
        (zone name rr_type : Str)
        → Issues
            (Patches c zone (delete_rrset wide (fqdn zone) name rr_type ∷ []))
            (delete_record wide env c zone name rr_type)
    unfolding delete_record
    delete_record-Patches zone name rr_type = send-DnsCall "PATCH" _ _
