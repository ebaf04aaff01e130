-- ===== src/Agent/Webserver/Paths.antt =====
-- Where CreateVhost and DeleteVhost of nginx.go put and remove a domain's files. The domain is not
-- checked by them.
use gratis.Base.{
  Bool-cases, ◌≡◌, ◌≢◌, inl, inr, refl, ap, true, List, [], ◌∷◌, ◌++◌, arith, All, All-append,
  length, length-append, ◌<◌,
}
use gratis.Text.{
  Str, bytes, Free, IsName, rooted, is_name, IsName-of_test, join_path-name, join_path-climb,
}
use gratis.Host.{Call, remove, Trace, Env}
use gratis.Agent.Webserver.Vhosts.{is_gone, nginx_reload, delete_vhost_calls}
use gratis.Agent.Webserver.{conf_path, link_path, delete_vhost}

abbrev pub conf_name : Str → Str
conf_name domain = domain ++ bytes ".conf"

length_conf : (domain : Str) → 2 < length (conf_name domain)
unfolding bytes
length_conf domain = omega (arith, length-append domain (bytes ".conf"))

-- Without a slash, the file's name is a plain name.
conf_name-IsName : (domain : Str) → Free 47 domain → IsName (conf_name domain)
conf_name-IsName domain h = record {
  not_empty = λ e. omega (arith, length_conf domain, ap length e);
  not_dot = λ e. omega (arith, length_conf domain, ap length e);
  not_dots = λ e. omega (arith, length_conf domain, ap length e);
  no_slash = All-append (λ b. b ≢ 47) domain (bytes ".conf") h (unfold bytes in omega arith);
}

sites_names :
    (last : Str) → is_name last ≡ true → All IsName (bytes "etc" ∷ bytes "nginx" ∷ last ∷ [])
unfolding bytes is_name
sites_names last h = (
  IsName-of_test (bytes "etc") refl,
  (IsName-of_test (bytes "nginx") refl, (IsName-of_test last h, tt)),
)

available_names : All IsName (bytes "etc" ∷ bytes "nginx" ∷ bytes "sites-available" ∷ [])
unfolding bytes is_name
available_names = sites_names (bytes "sites-available") refl

enabled_names : All IsName (bytes "etc" ∷ bytes "nginx" ∷ bytes "sites-enabled" ∷ [])
unfolding bytes is_name
enabled_names = sites_names (bytes "sites-enabled") refl

-- The files of a domain without a slash lie in the two directories, under the domain's name and
-- ".conf".
pub vhost_paths :
    (domain : Str)
    → Free 47 domain
    → (conf_path domain
        ≡ rooted (bytes "etc" ∷ bytes "nginx" ∷ bytes "sites-available" ∷ conf_name domain ∷ []))
      × (link_path domain
          ≡ rooted (bytes "etc" ∷ bytes "nginx" ∷ bytes "sites-enabled" ∷ conf_name domain ∷ []))
unfolding conf_path link_path
vhost_paths domain h = (
  join_path-name (bytes "etc") (bytes "nginx" ∷ bytes "sites-available" ∷ []) (conf_name domain)
      available_names (conf_name-IsName domain h),
  join_path-name (bytes "etc") (bytes "nginx" ∷ bytes "sites-enabled" ∷ []) (conf_name domain)
      enabled_names (conf_name-IsName domain h),
)

-- "../" and a name with no slash: a file of /etc/nginx itself.
conf_path-climb :
    (x : Str)
    → Free 47 x
    → conf_path (46 ∷ 46 ∷ 47 ∷ x) ≡ rooted (bytes "etc" ∷ bytes "nginx" ∷ conf_name x ∷ [])
unfolding conf_path
conf_path-climb x h =
    join_path-climb (bytes "etc") (bytes "nginx" ∷ []) (bytes "sites-available") (conf_name x)
      (available_names.0, (available_names.1.0, tt)) available_names.1.1.0 (conf_name-IsName x h)

-- DeleteVhost of the domain "../x", for x without a slash, asks the host to remove the file
-- /etc/nginx/x.conf, which is no virtual host's: it is the second call that it makes.
pub delete_vhost-outside :
    (env : Env) (x : Str) (t : Trace)
    → Free 47 x
    → (later : List Call) × (link : Str) × ((delete_vhost env (46 ∷ 46 ∷ 47 ∷ x) t).1
        ≡ later
          ++ remove (rooted (bytes "etc" ∷ bytes "nginx" ∷ conf_name x ∷ [])) ∷ remove link ∷ t)
delete_vhost-outside env x t h =
    elim (Bool-cases (
      is_gone
        (env (remove (link_path (46 ∷ 46 ∷ 47 ∷ x)) ∷ t)
          (remove (conf_path (46 ∷ 46 ∷ 47 ∷ x)))).failure)) [
            | inl e ↦ (
              nginx_reload ∷ [],
              link_path (46 ∷ 46 ∷ 47 ∷ x),
              rw (delete_vhost_calls, e, conf_path-climb x h),
            )
            | inr e ↦
                ([], link_path (46 ∷ 46 ∷ 47 ∷ x), rw (delete_vhost_calls, e, conf_path-climb x h))
          ]
