-- ===== src/Agent/Webserver/Vhosts.antt =====
-- What CreateVhost and DeleteVhost of nginx.go do on each branch.
use gratis.Base.{Option, Bool, true, some, if◌then◌else◌, ◌≡◌, ◌↔◌, none, [], ◌∷◌, arith}
use gratis.Text.{Str, bytes}
use gratis.Host.{
  wrapf, Error, Result, err, is_not_exist, ok, Call, run, mkdir_all, write_file, remove, symlink,
  Trace, Env, ◌>>=◌,
}
use gratis.Agent.Webserver.{
  with_docroot, create_vhost, delete_vhost, VhostConfig, vhost_text, conf_path, link_path,
  write_vhost,
}

abbrev pub nginx_t : Call
nginx_t = run (bytes "nginx") (bytes "-t" ∷ [])

abbrev pub nginx_reload : Call
nginx_reload = run (bytes "systemctl") (bytes "reload" ∷ bytes "nginx" ∷ [])

-- The host carried out the call.
abbrev pub Succeeds : Env → Trace → Call → Type 0
Succeeds env t c = (env t c).failure ≡ none

-- The calls up to the test of the configuration, newest first.
abbrev pub prepared : VhostConfig → Trace → Trace
prepared cfg t =
    symlink (conf_path cfg.domain) (link_path cfg.domain)
    ∷ remove (link_path cfg.domain)
    ∷ write_file (conf_path cfg.domain) (vhost_text cfg) 0o644
    ∷ mkdir_all cfg.docroot 0o755
    ∷ t

-- The calls when the configuration is rolled back.
abbrev pub rolled_back : VhostConfig → Trace → Trace
rolled_back cfg t =
    remove (conf_path cfg.domain) ∷ remove (link_path cfg.domain) ∷ nginx_t ∷ prepared cfg t

-- What CreateVhost reports for a failed test.
abbrev pub test_failed : Error → Str → Result (Unit {0})
test_failed e output =
    err (wrapf "nginx config test failed: %w" [] (wrapf "%w: %s" [] e (output ∷ [])) [])

module _ (env : Env) (cfg : VhostConfig) (t : Trace) where
  -- The configuration is in place and linked.
  abbrev pub IsPrepared : Type 0
  IsPrepared =
      Succeeds env t (mkdir_all cfg.docroot 0o755)
      × Succeeds env (mkdir_all cfg.docroot 0o755 ∷ t)
          (write_file (conf_path cfg.domain) (vhost_text cfg) 0o644)
      × Succeeds env
          (remove (link_path cfg.domain)
            ∷ write_file (conf_path cfg.domain) (vhost_text cfg) 0o644
            ∷ mkdir_all cfg.docroot 0o755
            ∷ t)
          (symlink (conf_path cfg.domain) (link_path cfg.domain))

  pub write_vhost-reloads :
      IsPrepared
      → Succeeds env (prepared cfg t) nginx_t
      → (write_vhost env cfg t).1 ≡ nginx_reload ∷ nginx_t ∷ prepared cfg t
  unfolding write_vhost ◌>>=◌
  write_vhost-reloads p s = ground arith

  pub write_vhost-rolls_back :
      {e : Error}
      → IsPrepared
      → (env (prepared cfg t) nginx_t).failure ≡ some e
      → ((write_vhost env cfg t).1 ≡ rolled_back cfg t)
        × ((write_vhost env cfg t).0 ≡ test_failed e (env (prepared cfg t) nginx_t).text)
  unfolding write_vhost ◌>>=◌
  write_vhost-rolls_back p s = (ground arith, ground arith)

  pub write_vhost-ok_iff : ((write_vhost env cfg t).0 ≡ ok tt) ↔ (
      IsPrepared
      × Succeeds env (prepared cfg t) nginx_t
      × Succeeds env (nginx_t ∷ prepared cfg t) nginx_reload)
  unfolding write_vhost ◌>>=◌
  write_vhost-ok_iff = (λ h. ground arith, λ h. ground arith)

-- CreateVhost succeeds exactly when the directory, the file, the link, the test of the
-- configuration and the reload all succeed, in this order; the removal of an old link may fail.
pub create_vhost-ok_iff :
    (env : Env) (cfg : VhostConfig) (t : Trace)
    → ((create_vhost env cfg t).0 ≡ ok tt) ↔ (
        IsPrepared env (with_docroot cfg) t
        × Succeeds env (prepared (with_docroot cfg) t) nginx_t
        × Succeeds env (nginx_t ∷ prepared (with_docroot cfg) t) nginx_reload)
unfolding create_vhost
create_vhost-ok_iff env cfg t = write_vhost-ok_iff env (with_docroot cfg) t

-- If the configuration is in place and its test fails, CreateVhost removes the link and then the
-- file, does not reload nginx, and reports an error.
pub create_vhost-rolls_back :
    (env : Env) (cfg : VhostConfig) (t : Trace) {e : Error}
    → IsPrepared env (with_docroot cfg) t
    → (env (prepared (with_docroot cfg) t) nginx_t).failure ≡ some e
    → ((create_vhost env cfg t).1 ≡ rolled_back (with_docroot cfg) t)
      × ((create_vhost env cfg t).0
          ≡ test_failed e (env (prepared (with_docroot cfg) t) nginx_t).text)
unfolding create_vhost
create_vhost-rolls_back env cfg t p s = write_vhost-rolls_back env (with_docroot cfg) t p s

-- The removal worked, or there was nothing to remove.
abbrev pub is_gone : Option Error → Bool
is_gone none = true
is_gone (some e) = is_not_exist e

-- DeleteVhost asks for the removal of the link and of the file, and then reloads nginx, unless the
-- file is there and could not be removed.
pub delete_vhost_calls :
    (env : Env) (domain : Str) (t : Trace)
    → (delete_vhost env domain t).1 ≡ (
        if is_gone (env (remove (link_path domain) ∷ t) (remove (conf_path domain))).failure
        then nginx_reload ∷ remove (conf_path domain) ∷ remove (link_path domain) ∷ t
        else remove (conf_path domain) ∷ remove (link_path domain) ∷ t)
unfolding delete_vhost ◌>>=◌
delete_vhost_calls env domain t = ground arith

-- DeleteVhost succeeds exactly when the file is gone, a missing one included, and nginx reloads.
pub delete_vhost-ok_iff :
    (env : Env) (domain : Str) (t : Trace)
    → ((delete_vhost env domain t).0 ≡ ok tt) ↔ (
        (is_gone (env (remove (link_path domain) ∷ t) (remove (conf_path domain))).failure ≡ true)
        × Succeeds env (remove (conf_path domain) ∷ remove (link_path domain) ∷ t) nginx_reload)
unfolding delete_vhost ◌>>=◌
delete_vhost-ok_iff env domain t = (λ h. ground arith, λ h. ground arith)
