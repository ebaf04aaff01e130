-- ===== src/Agent/Dns/Tests.antt =====
-- Requests and names of powerdns.go.
use gratis.Text.{bytes}
use gratis.Agent.Dns.Names.{upsert_rrset_lem, IsAbsolute}
use gratis.Agent.Dns.{delete_rrset, fqdn, upsert_rrset, ZoneRecord}
use gratis.Base.{◌<◌, ◌≡◌}

abbrev www : ZoneRecord
www = record {
  name = bytes "www";
  type = bytes "A";
  content = bytes "1.2.3.4";
  ttl = 0;
  priority = 0;
}

upsert_rrset_example :
    IsAbsolute (upsert_rrset (λ s. s) (fqdn (bytes "a.org")) www).name
    × (0 < (upsert_rrset (λ s. s) (fqdn (bytes "a.org")) www).ttl)
    × ((upsert_rrset (λ s. s) (fqdn (bytes "a.org")) www).name
        ≡ (delete_rrset (λ s. s) (fqdn (bytes "a.org")) www.name www.type).name)
    × ((upsert_rrset (λ s. s) (fqdn (bytes "a.org")) www).type
        ≡ (delete_rrset (λ s. s) (fqdn (bytes "a.org")) www.name www.type).type)
upsert_rrset_example = upsert_rrset_lem (λ s. s) (bytes "a.org") www
