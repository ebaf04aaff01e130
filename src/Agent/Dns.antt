-- ===== src/Agent/Dns.antt =====
-- agent/internal/dns/powerdns.go: a client of the PowerDNS HTTP API.
pub mod Calls
pub mod Names
pub mod Requests
pub mod Tests
use gratis.Text.{decimal, has_suffix, str_eq, bytes, trim_end, to_upper, Str}
use gratis.Host.{
  errorf, raise, pure, http, array, bool, wrapf, item, perform, none_left, ◌>>◌, wrap, ◌>>=◌, end,
  field, Items, Fields, object, M, Json, Env,
}
use gratis.Base.{
  leb, false, length, ◌||◌, map, ltb, ◌||◌, ◌++◌, not, none, ◌∷◌, some, ◌==◌, ◌==◌, ◌==◌, ◌++◌,
  ◌==◌, ◌∷◌, String, [], if◌then◌else◌, if◌then◌else◌, List, Option, ℕ,
}

pub record Client : Type 0 where
  pub base_url : Str
  pub api_key : Str

pub new_client : Str → Str → Client
new_client base_url api_key = record {
  base_url = trim_end (λ b. b == b'/') base_url;
  api_key = api_key;
}

-- Name: relative to the zone, "@" for its apex.
pub record ZoneRecord : Type 0 where
  pub name : Str
  pub type : Str
  pub content : Str
  pub ttl : ℕ
  pub priority : ℕ

-- An rrset with its one record, or none, and without the field that is not sent.
pub record Rrset : Type 0 where
  pub name : Str
  pub type : Str
  pub ttl : ℕ
  pub change_type : Str
  pub content : Option Str

-- fqdn: with a dot at the end.
pub fqdn : Str → Str
fqdn name = if not (has_suffix name (bytes ".")) then name ++ bytes "." else name

pub expand_name : Str → Str → Str
expand_name name zone_fqdn =
    if str_eq name (bytes "@") || str_eq name []
    then zone_fqdn
    else if has_suffix name (bytes ".")
    then name
    else name ++ (bytes "." ++ zone_fqdn)

-- The JSON of a zone, and of an rrset; `omitempty` drops a field with the zero value.
pub zone_json : Str → Json
zone_json name =
    object (
      field (bytes "name") (Json.text name) (field (bytes "kind") (Json.text (bytes "Native")) end))

record_json : Str → Json
record_json content =
    object (field (bytes "content") (Json.text content) (field (bytes "disabled") (bool false) end))

ttl_field : ℕ → Fields → Fields
ttl_field ttl rest = if ttl == 0 then rest else field (bytes "ttl") (Json.number ttl) rest

records_field : Option Str → Fields
unfolding record_json
records_field none = end
records_field (some content) =
    field (bytes "records") (array (item (record_json content) none_left)) end

rrset_json : Rrset → Json
unfolding ttl_field records_field
rrset_json s = object (
    field (bytes "name") (Json.text s.name) (
      field (bytes "type") (Json.text s.type) (
        ttl_field s.ttl
          (field (bytes "changetype") (Json.text s.change_type) (records_field s.content)))))

rrsets_json : List Rrset → Items
unfolding rrset_json
rrsets_json [] = none_left
rrsets_json (s ∷ sets) = item (rrset_json s) (rrsets_json sets)

pub patch_json : List Rrset → Json
unfolding rrsets_json
patch_json sets = object (field (bytes "rrsets") (array (rrsets_json sets)) end)

pub content_type : Option Json → List (Str × Str)
content_type none = []
content_type (some b) = (bytes "Content-Type", bytes "application/json") ∷ []

-- A request that cannot be built counts as a call that fails.
pub send : Env → Client → String → Str → Option Json → M (Unit {0})
unfolding content_type
send env c method path body = do
  r ← perform env (
      http (bytes method) (c.base_url ++ (bytes "/api/v1" ++ path))
        ((bytes "X-API-Key", c.api_key) ∷ content_type body) body)
  if leb 300 r.number
      then raise (errorf "HTTP %d: %s" (decimal r.number ∷ r.text ∷ []))
      else pure tt

pub zone_path : Str → Str
zone_path zone_fqdn = bytes "/servers/localhost/zones/" ++ zone_fqdn

-- `wide` stands for the Unicode case tables of strings.ToUpper.
module _ (wide : Str → Str) where
  -- One round of the loop of upsertRecords.
  pub upsert_rrset : Str → ZoneRecord → Rrset
  unfolding fqdn expand_name
  upsert_rrset zone_fqdn r = record {
    name = fqdn (expand_name r.name zone_fqdn);
    type = to_upper wide r.type;
    ttl = if r.ttl == 0 then 300 else r.ttl;
    change_type = bytes "REPLACE";
    content =
        some
          (if ltb 0 r.priority then decimal r.priority ++ (bytes " " ++ r.content) else r.content);
  }

  pub upsert_records : Env → Client → Str → List ZoneRecord → M (Unit {0})
  unfolding upsert_rrset send patch_json zone_path
  upsert_records env c zone_fqdn records =
      send env c "PATCH" (zone_path zone_fqdn)
        (some (patch_json (map (upsert_rrset zone_fqdn) records)))

  pub create_zone : Env → Client → Str → List ZoneRecord → M (Unit {0})
  unfolding fqdn zone_json send upsert_records
  create_zone env c zone_name records =
      let zone = fqdn zone_name in
      do
        wrap (λ e. wrapf "create zone %s: %w" (zone ∷ []) e [])
            (send env c "POST" (bytes "/servers/localhost/zones") (some (zone_json zone)))
        if ltb 0 (length records) then upsert_records env c zone records else pure tt

  pub upsert_record : Env → Client → Str → ZoneRecord → M (Unit {0})
  unfolding fqdn upsert_records
  upsert_record env c zone_name r = upsert_records env c (fqdn zone_name) (r ∷ [])

  pub delete_rrset : Str → Str → Str → Rrset
  unfolding fqdn expand_name
  delete_rrset zone_fqdn name rr_type = record {
    name = fqdn (expand_name name zone_fqdn);
    type = to_upper wide rr_type;
    ttl = 0;
    change_type = bytes "DELETE";
    content = none;
  }

  pub delete_record : Env → Client → Str → Str → Str → M (Unit {0})
  unfolding fqdn delete_rrset send patch_json zone_path
  delete_record env c zone_name name rr_type =
      send env c "PATCH" (zone_path (fqdn zone_name))
        (some (patch_json (delete_rrset (fqdn zone_name) name rr_type ∷ [])))

pub delete_zone : Env → Client → Str → M (Unit {0})
unfolding fqdn send zone_path
delete_zone env c zone_name =
    wrap (λ e. wrapf "delete zone %s: %w" (fqdn zone_name ∷ []) e [])
      (send env c "DELETE" (zone_path (fqdn zone_name)) none)
