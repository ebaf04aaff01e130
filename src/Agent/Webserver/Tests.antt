-- ===== src/Agent/Webserver/Tests.antt =====
-- Virtual hosts of nginx.go on a host where every call succeeds, and on one where `nginx -t` fails.
use gratis.Agent.Webserver.Sites.{SparesDir, Spares}
use gratis.Host.Disk.{IsPlain, file, link, Entry, Disk}
use gratis.Agent.Webserver.Outcomes.{
  create_vhost-loses_old, create_vhost-installs, delete_vhost-create_vhost,
}
use gratis.Host.Disk.Machine.{
  machine-is_dir, dir_at, entry_at, machine-entry, machine-Disk, machine,
}
use gratis.Agent.Webserver.Vhosts.{
  delete_vhost-ok_iff, is_gone, create_vhost-ok_iff, nginx_t, nginx_reload,
}
use gratis.Text.{join_path, str_eq, Free, Str, bytes}
use gratis.Host.{◌>>=◌, remove, ok, external, run, Env, Reply}
use gratis.Agent.Webserver.{
  vhost_text, write_vhost, reload_nginx, link_path, with_docroot, conf_path, delete_vhost,
  VhostConfig, create_vhost,
}
use gratis.Base.{subst, sym, ◌∙◌, true, ◌≢◌, Option, refl, arith, ◌≡◌, some, none, List, ◌∷◌, []}

abbrev failing : Reply
failing = record {
  text = bytes "syntax";
  number = 0;
  failure = some (external (bytes "exit status 1"));
}

abbrev bad_config : Env
bad_config t (run name args) = failing
bad_config t c = record { text = []; number = 0; failure = none }

abbrev site : VhostConfig
site = record {
  domain = bytes "a.org";
  aliases = bytes "www.a.org" ∷ [];
  docroot = bytes "/srv/a";
  php_version = [];
}

-- A machine without sites, and one whose nginx refuses every configuration.
abbrev bare : Str → Option Entry
bare q = none

abbrev willing : Str → List Str → Reply
willing name args = record { text = []; number = 0; failure = none }

abbrev refusing : Str → List Str → Reply
refusing name args = failing

abbrev host : Env
host = machine bare willing

abbrev strict_host : Env
strict_host = machine bare refusing

abbrev disk : Disk host
disk = machine-Disk bare willing

spared : (q : Str) → Spares disk q
unfolding entry_at
spared q t = (
  machine-entry bare willing (nginx_t ∷ t) q ∙ sym (machine-entry bare willing t q),
  machine-entry bare willing (nginx_reload ∷ t) q ∙ sym (machine-entry bare willing t q),
)

spared_dir : (q : Str) → SparesDir disk q
unfolding dir_at
spared_dir q t = (
  machine-is_dir bare willing (nginx_t ∷ t) q ∙ sym (machine-is_dir bare willing t q),
  machine-is_dir bare willing (nginx_reload ∷ t) q ∙ sym (machine-is_dir bare willing t q),
)

off_conf : (with_docroot site).docroot ≢ conf_path (bytes "a.org")
unfolding with_docroot str_eq conf_path join_path bytes
off_conf e = cc e

off_link : (with_docroot site).docroot ≢ link_path (bytes "a.org")
unfolding with_docroot str_eq link_path join_path bytes
off_link e = cc e

flat : Free 47 (bytes "a.org")
unfolding bytes
flat = omega arith

created : (create_vhost host site []).0 ≡ ok tt
unfolding machine entry_at with_docroot str_eq bytes
created = (create_vhost-ok_iff host site []).1 ((refl, refl, refl), refl, refl)

create_vhost-installs_example :
    (disk.entry (create_vhost host site []).1 (conf_path (bytes "a.org"))
      ≡ some (file (vhost_text (with_docroot site))))
    × (disk.entry (create_vhost host site []).1 (link_path (bytes "a.org"))
        ≡ some (link (conf_path (bytes "a.org"))))
    × (disk.is_dir (create_vhost host site []).1 (with_docroot site).docroot ≡ true)
    × ((q : Str)
        → Spares disk q
        → q ≢ conf_path (bytes "a.org")
        → q ≢ link_path (bytes "a.org")
        → disk.entry (create_vhost host site []).1 q ≡ disk.entry [] q)
unfolding entry_at
create_vhost-installs_example =
    create_vhost-installs disk site []
      (subst IsPlain (sym (machine-entry bare willing [] (conf_path (bytes "a.org")))) tt) flat
      (spared _) (spared _) (spared_dir _) off_link created

create_vhost-loses_old_example :
    ((machine-Disk bare refusing).entry
        (create_vhost strict_host site []).1
        (conf_path (bytes "a.org"))
      ≡ none)
    × ((machine-Disk bare refusing).entry
          (create_vhost strict_host site []).1
          (link_path (bytes "a.org"))
        ≡ none)
unfolding machine entry_at with_docroot str_eq conf_path link_path bytes join_path
create_vhost-loses_old_example =
    create_vhost-loses_old (machine-Disk bare refusing) site [] flat (refl, refl, refl) refl refl
      refl

-- The site is there, and is deleted again.
deleted : (delete_vhost host (bytes "a.org") (create_vhost host site []).1).0 ≡ ok tt
unfolding machine entry_at create_vhost write_vhost reload_nginx with_docroot str_eq conf_path
    link_path join_path bytes ◌>>=◌
deleted = (delete_vhost-ok_iff host (bytes "a.org") (create_vhost host site []).1).1 (refl, refl)

still_there :
    is_gone (host (create_vhost host site []).1 (remove (link_path (bytes "a.org")))).failure ≡ true
unfolding machine entry_at create_vhost write_vhost reload_nginx with_docroot str_eq conf_path
    link_path join_path bytes ◌>>=◌
still_there = refl

delete_vhost-create_vhost_example :
    (disk.is_dir
        (delete_vhost host (bytes "a.org") (create_vhost host site []).1).1
        (with_docroot site).docroot
      ≡ true)
    × ((q : Str)
        → Spares disk q
        → disk.entry (delete_vhost host (bytes "a.org") (create_vhost host site []).1).1 q
          ≡ disk.entry [] q)
unfolding entry_at
delete_vhost-create_vhost_example =
    delete_vhost-create_vhost disk site [] flat (spared _) (spared _)
      (machine-entry bare willing _ _) (machine-entry bare willing _ _) (spared_dir _) off_conf
      off_link created deleted still_there
