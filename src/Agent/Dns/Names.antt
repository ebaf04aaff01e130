-- ===== src/Agent/Dns/Names.antt =====
-- The names that powerdns.go sends.
use gratis.Base.{◌++◌, refl, [], inr, arith, ◌||◌, false, inl, true, ◌<◌, ◌≡◌, Bool-cases}
use gratis.Text.{has_suffix-append, has_suffix-last, str_eq, bytes, has_suffix, Str}
use gratis.Agent.Dns.{delete_rrset, ZoneRecord, fqdn, upsert_rrset, expand_name}

-- A name ends with a dot.
abbrev pub IsAbsolute : Str → Type 0
IsAbsolute s = has_suffix s (bytes ".") ≡ true

pub fqdn-IsAbsolute : (name : Str) → IsAbsolute (fqdn name)
unfolding fqdn
fqdn-IsAbsolute name = elim (Bool-cases (has_suffix name (bytes "."))) [
  | inl e ↦ rw e e
  | inr e ↦ rw e (has_suffix-append name (bytes "."))
]

pub fqdn_of_IsAbsolute : (name : Str) → IsAbsolute name → fqdn name ≡ name
unfolding fqdn
fqdn_of_IsAbsolute name h = rw h

-- In an absolute zone the expanded name is absolute.
expand_name-IsAbsolute : (name zone : Str) → IsAbsolute zone → IsAbsolute (expand_name name zone)
unfolding expand_name
expand_name-IsAbsolute name zone h = elim (Bool-cases (str_eq name (bytes "@") || str_eq name [])) [
  | inl e ↦ rw e h
  | inr e ↦ elim (Bool-cases (has_suffix name (bytes "."))) [
    | inl f ↦ rw (e, f) f
    | inr f ↦
        rw (e, f)
          (has_suffix-last name (bytes "." ++ zone) (bytes ".")
            (has_suffix-last (bytes ".") zone (bytes ".") h))
  ]
]

expand_name-in_zone :
    (name zone : Str)
    → has_suffix name (bytes ".") ≡ false
    → has_suffix (expand_name name zone) zone ≡ true
unfolding expand_name
expand_name-in_zone name zone f = elim (Bool-cases (str_eq name (bytes "@") || str_eq name [])) [
  | inl e ↦ rw e (has_suffix-append [] zone)
  | inr e ↦
      rw (e, f) (has_suffix-last name (bytes "." ++ zone) zone (has_suffix-append (bytes ".") zone))
]

-- Whatever the zone and the record: the rrset that is sent for the record has an absolute name and a
-- positive TTL, and DeleteRecord of the same name and type in the same zone names the same rrset.
pub upsert_rrset_lem :
    (wide : Str → Str) (zone : Str) (r : ZoneRecord)
    → IsAbsolute (upsert_rrset wide (fqdn zone) r).name
      × (0 < (upsert_rrset wide (fqdn zone) r).ttl)
      × ((upsert_rrset wide (fqdn zone) r).name
          ≡ (delete_rrset wide (fqdn zone) r.name r.type).name)
      × ((upsert_rrset wide (fqdn zone) r).type
          ≡ (delete_rrset wide (fqdn zone) r.name r.type).type)
unfolding upsert_rrset delete_rrset
upsert_rrset_lem wide zone r =
    (fqdn-IsAbsolute (expand_name r.name (fqdn zone)), ground arith, refl, refl)

-- A record whose own name does not end with a dot is sent with a name that ends with the zone's.
upsert_rrset-in_zone :
    (wide : Str → Str) (zone : Str) (r : ZoneRecord)
    → has_suffix r.name (bytes ".") ≡ false
    → has_suffix (upsert_rrset wide (fqdn zone) r).name (fqdn zone) ≡ true
unfolding upsert_rrset
upsert_rrset-in_zone wide zone r h =
    rw (fqdn_of_IsAbsolute _ (expand_name-IsAbsolute r.name (fqdn zone) (fqdn-IsAbsolute zone)))
      (expand_name-in_zone r.name (fqdn zone) h)
