-- ===== src/Agent/Email/Address.antt =====
-- How manager.go reads an address.
use gratis.Host.{ok}
use gratis.Text.{cut-append, cut_sound, cut, Free, str_eq_iff, Str}
use gratis.Agent.Email.{check_parts, split_address}
use gratis.Base.{◌∙◌, ap, none, ◌++◌, ◌↔◌, arith, some, ◌≡◌, ◌≢◌, Option, ◌∷◌, []}

check_parts-ok :
    (address local domain : Str) (o : Option (Str × Str))
    → check_parts address o ≡ ok (local, domain)
    → (o ≡ some (local, domain)) × (local ≢ []) × (domain ≢ [])
unfolding check_parts
check_parts-ok address local domain none h = cc
check_parts-ok address local domain (some (l, d)) h =
    (ground (arith), λ e. ground (arith, str_eq_iff l []), λ e. ground (arith, str_eq_iff d []))

check_parts-some :
    (address local domain : Str)
    → local ≢ []
    → domain ≢ []
    → check_parts address (some (local, domain)) ≡ ok (local, domain)
unfolding check_parts
check_parts-some address local domain n m =
    ground (arith, n, m, str_eq_iff local [], str_eq_iff domain [])

-- An address parts exactly into a local part with no "@" and a domain, neither of them empty, with
-- an "@" between; the domain may hold further ones.
pub split_address-ok_iff :
    (address local domain : Str)
    → (split_address address ≡ ok (local, domain))
      ↔ ((address ≡ local ++ b'@' ∷ domain) × Free b'@' local × (local ≢ []) × (domain ≢ []))
unfolding split_address
split_address-ok_iff address local domain = (
  λ h.
      let (found, n, m) = check_parts-ok address local domain (cut b'@' address) h in
      let (e, free) = cut_sound b'@' address local domain found in (e, free, n, m),
  λ (e, free, n, m).
      ap (check_parts address) (ap (cut b'@') e ∙ cut-append b'@' local domain free)
      ∙ check_parts-some address local domain n m,
)
