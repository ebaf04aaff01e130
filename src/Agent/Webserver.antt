-- ===== src/Agent/Webserver.antt =====
-- agent/internal/webserver/nginx.go: nginx virtual hosts, and restarts of services.
pub mod Calls
pub mod Vhosts
pub mod Paths
pub mod Sites
pub mod Outcomes
pub mod Tests
use gratis.Base.{◌≡◌, refl, String, Option, none, some, List, [], ◌∷◌, ◌++◌, if◌then◌else◌}
use gratis.Text.{Str, bytes, str_eq, format, join_path, rooted}
use gratis.Host.{
  unless_missing, Error, wrapf, errorf, is_not_exist, Result, ok, err, Env, M, pure, raise, attempt,
  wrap, perform, run_with_output, done, mkdir_all, write_file, remove, symlink, ◌>>=◌, ◌>>◌,
}

-- The directories as rooted paths: "/etc/nginx/sites-available" and "/etc/nginx/sites-enabled".
abbrev pub sites_available : Str
sites_available = rooted (bytes "etc" ∷ bytes "nginx" ∷ bytes "sites-available" ∷ [])

abbrev pub sites_enabled : Str
sites_enabled = rooted (bytes "etc" ∷ bytes "nginx" ∷ bytes "sites-enabled" ∷ [])

pub record VhostConfig : Type 0 where
  pub domain : Str
  pub aliases : List Str
  pub docroot : Str
  -- empty: no PHP
  pub php_version : Str

-- {{ range .Aliases }} {{ . }}{{ end }}
alias_list : List Str → Str
unfolding bytes
alias_list [] = []
alias_list (a ∷ as') = bytes " " ++ (a ++ alias_list as')

-- {{ if .PHPVersion }} … {{ end }}
php_block : Str → Str
unfolding bytes
php_block [] = []
php_block (b ∷ version) =
    bytes
      "\n    location ~ \\.php$ {\n        include snippets/fastcgi-php.conf;\n        fastcgi_pass unix:/run/php/php"
    ++ ((b ∷ version)
        ++ bytes
            "-fpm.sock;\n        fastcgi_param SCRIPT_FILENAME $realpath_root$fastcgi_script_name;\n        include fastcgi_params;\n    }\n")

-- vhostTemplate
pub vhost_text : VhostConfig → Str
unfolding alias_list php_block
vhost_text cfg =
    bytes
      "# Managed by Gratis — do not edit manually\nserver {\n    listen 80;\n    listen [::]:80;\n    server_name "
    ++ (cfg.domain
        ++ (alias_list cfg.aliases
            ++ (bytes ";\n\n    root "
                ++ (cfg.docroot
                    ++ (bytes
                          ";\n    index index.php index.html index.htm;\n\n    access_log /var/log/nginx/"
                        ++ (cfg.domain
                            ++ (bytes ".access.log;\n    error_log  /var/log/nginx/"
                                ++ (cfg.domain
                                    ++ (bytes
                                          ".error.log;\n\n    location / {\n        try_files $uri $uri/ /index.php?$query_string;\n    }\n"
                                        ++ (php_block cfg.php_version
                                            ++ bytes
                                                "\n    location ~ /\\.(?!well-known) {\n        deny all;\n    }\n}\n"))))))))))

pub conf_path : Str → Str
conf_path domain = join_path (sites_available ∷ (domain ++ bytes ".conf") ∷ [])

pub link_path : Str → Str
link_path domain = join_path (sites_enabled ∷ (domain ++ bytes ".conf") ∷ [])

-- The configuration with its document root filled in.
pub with_docroot : VhostConfig → VhostConfig
with_docroot cfg =
    if str_eq cfg.docroot []
    then record cfg {
      docroot = format (bytes "/home/%s/public_html/%s") (cfg.domain ∷ cfg.domain ∷ []);
    }
    else cfg

pub test_config : Env → M (Unit {0})
test_config env = run_with_output env "%w: %s" [] (bytes "nginx") (bytes "-t" ∷ [])

pub reload_nginx : Env → M (Unit {0})
reload_nginx env =
    run_with_output env "reload nginx: %w: %s" [] (bytes "systemctl")
      (bytes "reload" ∷ bytes "nginx" ∷ [])

-- What follows the test of the configuration: a bad one is rolled back.
pub reload_or_roll_back : Env → Str → Result (Unit {0}) → M (Unit {0})
unfolding reload_nginx
reload_or_roll_back env domain (ok u) = reload_nginx env
reload_or_roll_back env domain (err e) = do
  _ ← attempt (perform env (remove (link_path domain)))
  _ ← attempt (perform env (remove (conf_path domain)))
  raise (wrapf "nginx config test failed: %w" [] e [])

-- The part of CreateVhost behind the filling in of the document root.
pub write_vhost : Env → VhostConfig → M (Unit {0})
unfolding reload_or_roll_back test_config
write_vhost env cfg = do
  wrap (λ e. wrapf "create docroot %s: %w" (cfg.docroot ∷ []) e [])
      (perform env (mkdir_all cfg.docroot 0o755))
  wrap (λ e. wrapf "write config %s: %w" (conf_path cfg.domain ∷ []) e [])
      (perform env (write_file (conf_path cfg.domain) (vhost_text cfg) 0o644))
  _ ← attempt (perform env (remove (link_path cfg.domain)))
  wrap (λ e. wrapf "enable site %s: %w" (cfg.domain ∷ []) e [])
      (perform env (symlink (conf_path cfg.domain) (link_path cfg.domain)))
  tested ← attempt (test_config env)
  reload_or_roll_back env cfg.domain tested

pub create_vhost : Env → VhostConfig → M (Unit {0})
unfolding write_vhost with_docroot
create_vhost env cfg = write_vhost env (with_docroot cfg)

pub delete_vhost : Env → Str → M (Unit {0})
unfolding reload_nginx
delete_vhost env domain = do
  _ ← attempt (perform env (remove (link_path domain)))
  unless_missing (λ e. wrapf "remove config %s: %w" (conf_path domain ∷ []) e [])
      (done (perform env (remove (conf_path domain))))
  reload_nginx env

pub restart_service : Env → Str → M (Unit {0})
restart_service env name =
    run_with_output env "restart %s: %w: %s" (name ∷ []) (bytes "systemctl")
      (bytes "restart" ∷ name ∷ [])
