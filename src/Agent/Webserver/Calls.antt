-- ===== src/Agent/Webserver/Calls.antt =====
-- The calls that nginx.go makes.
use gratis.Base.{[], ◌∷◌}
use gratis.Text.{Str, bytes}
use gratis.Agent.Webserver.{
  VhostConfig, vhost_text, conf_path, link_path, with_docroot, test_config, write_vhost,
  create_vhost, delete_vhost, restart_service, reload_nginx, reload_or_roll_back,
}
use gratis.Host.Rules.{Issues, issues_rules}
use gratis.Host.{symlink, remove, err, write_file, ok, mkdir_all, Result, run, Call, Env}

-- What CreateVhost may do: nginx is tested and reloaded, the document root is made, the file of the
-- domain is written with this configuration, it is linked, and the link and the file are removed.
pub data InstallCall (cfg : VhostConfig) : Call → Type 0 where
  makes_docroot : InstallCall cfg (mkdir_all (with_docroot cfg).docroot 0o755)
  writes :
      InstallCall cfg
        (write_file (conf_path (with_docroot cfg).domain) (vhost_text (with_docroot cfg)) 0o644)
  unlinks : InstallCall cfg (remove (link_path (with_docroot cfg).domain))
  links :
      InstallCall cfg
        (symlink (conf_path (with_docroot cfg).domain) (link_path (with_docroot cfg).domain))
  tests : InstallCall cfg (run (bytes "nginx") (bytes "-t" ∷ []))
  drops_conf : InstallCall cfg (remove (conf_path (with_docroot cfg).domain))
  reloads : InstallCall cfg (run (bytes "systemctl") (bytes "reload" ∷ bytes "nginx" ∷ []))

-- What DeleteVhost may do: the link and the file of the domain are removed, and nginx reloaded.
pub data UninstallCall (domain : Str) : Call → Type 0 where
  removes_link : UninstallCall domain (remove (link_path domain))
  removes_conf : UninstallCall domain (remove (conf_path domain))
  reloads_nginx :
      UninstallCall domain (run (bytes "systemctl") (bytes "reload" ∷ bytes "nginx" ∷ []))

ruleset install_rules =
    (makes_docroot, writes, unlinks, links, tests, drops_conf, reloads, issues_rules)

module _ (env : Env) where
  reload_or_roll_back-InstallCall :
      (cfg : VhostConfig) (r : Result (Unit {0}))
      → Issues (InstallCall cfg) (reload_or_roll_back env (with_docroot cfg).domain r)
  unfolding reload_or_roll_back reload_nginx
  reload_or_roll_back-InstallCall cfg (ok u) = search install_rules
  reload_or_roll_back-InstallCall cfg (err e) = search install_rules

  pub create_vhost-InstallCall :
      (cfg : VhostConfig) → Issues (InstallCall cfg) (create_vhost env cfg)
  unfolding create_vhost write_vhost test_config
  create_vhost-InstallCall cfg = search (install_rules, reload_or_roll_back-InstallCall) depth 16

  pub delete_vhost-UninstallCall :
      (domain : Str) → Issues (UninstallCall domain) (delete_vhost env domain)
  unfolding delete_vhost reload_nginx
  delete_vhost-UninstallCall domain =
      search (removes_link, removes_conf, reloads_nginx, issues_rules) depth 16

  pub restart_service-Issues :
      (P : Call → Type 0) (name : Str)
      → P (run (bytes "systemctl") (bytes "restart" ∷ name ∷ []))
      → Issues P (restart_service env name)
  unfolding restart_service
  restart_service-Issues P name p = search (issues_rules, p)
