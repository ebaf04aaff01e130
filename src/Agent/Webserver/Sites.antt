-- ===== src/Agent/Webserver/Sites.antt =====
-- The disk behind the calls of CreateVhost of nginx.go.
use gratis.Agent.Webserver.Paths.{vhost_paths}
use gratis.Agent.Webserver.Vhosts.{
  write_vhost-reloads, write_vhost-ok_iff, rolled_back, Succeeds, prepared, IsPrepared,
  nginx_reload, nginx_t,
}
use gratis.Agent.Webserver.{
  write_vhost, with_docroot, vhost_text, link_path, conf_path, VhostConfig,
}
use gratis.Host.Disk.{file, link, IsPlain, Disk}
use gratis.Host.{ok, remove, write_file, mkdir_all, Trace, Env}
use gratis.Base.{true, ap, none, arith, ◌∙◌, sym, subst, some, ◌≢◌, ◌≡◌, ◌∷◌}
use gratis.Text.{byte_at, join, Free, bytes, Str}

module _ {env : Env} (disk : Disk env) where
  open disk use {entry, is_dir}

  -- `nginx -t` and the reload leave the path alone.
  abbrev pub Spares : Str → Type 0
  Spares q =
      (t : Trace) → (entry (nginx_t ∷ t) q ≡ entry t q) × (entry (nginx_reload ∷ t) q ≡ entry t q)

  -- They leave it as a directory, or as none.
  abbrev pub SparesDir : Str → Type 0
  SparesDir q =
      (t : Trace)
      → (is_dir (nginx_t ∷ t) q ≡ is_dir t q) × (is_dir (nginx_reload ∷ t) q ≡ is_dir t q)

  -- The document root is a directory behind CreateVhost.
  pub write_vhost-docroot :
      (cfg : VhostConfig) (t : Trace)
      → SparesDir cfg.docroot
      → cfg.docroot ≢ link_path cfg.domain
      → (write_vhost env cfg t).0 ≡ ok tt
      → is_dir (write_vhost env cfg t).1 cfg.docroot ≡ true
  write_vhost-docroot cfg t spares n h =
      let (p, tested, _) = (write_vhost-ok_iff env cfg t).0 h in
      let conf = conf_path cfg.domain in
      let link' = link_path cfg.domain in
      let t₁ = mkdir_all cfg.docroot 0o755 ∷ t in
      let t₂ = write_file conf (vhost_text cfg) 0o644 ∷ t₁ in
      ap (λ x. is_dir x cfg.docroot) (write_vhost-reloads env cfg t p tested)
      ∙ ((spares (nginx_t ∷ prepared cfg t)).1
          ∙ ((spares (prepared cfg t)).0
              ∙ (disk.link_keeps_dirs (remove link' ∷ t₂) conf link' cfg.docroot
                  ∙ (disk.remove_keeps_dirs t₂ link' cfg.docroot n
                      ∙ (disk.write_keeps_dirs t₁ conf (vhost_text cfg) 0o644 cfg.docroot
                          ∙ disk.makes_dir t cfg.docroot 0o755 p.0)))))

  module _ (cfg : VhostConfig) (t : Trace) (plain : IsPlain (entry t (conf_path cfg.domain)))
      (apart : link_path cfg.domain ≢ conf_path cfg.domain) where
    -- The file and its link are there.
    prepared-conf :
        IsPrepared env cfg t
        → entry (prepared cfg t) (conf_path cfg.domain) ≡ some (file (vhost_text cfg))
    prepared-conf p =
        let conf = conf_path cfg.domain in
        let link' = link_path cfg.domain in
        let n : conf ≢ link' = λ e. apart (sym e) in
        let t₁ = mkdir_all cfg.docroot 0o755 ∷ t in
        let dir = disk.dir_keeps t cfg.docroot 0o755 conf in
        let plain' : IsPlain (entry t₁ conf) = subst IsPlain (sym dir) plain in
        let t₂ = write_file conf (vhost_text cfg) 0o644 ∷ t₁ in
        disk.link_keeps (remove link' ∷ t₂) conf link' conf n
        ∙ (disk.remove_keeps t₂ link' conf n
            ∙ disk.writes t₁ conf (vhost_text cfg) 0o644 plain' (p.1))

    prepared-link :
        IsPrepared env cfg t
        → entry (prepared cfg t) (link_path cfg.domain) ≡ some (link (conf_path cfg.domain))
    prepared-link p = disk.links _ (conf_path cfg.domain) (link_path cfg.domain) (p.2)

    -- No other path is touched, whether or not the calls succeed.
    prepared_keeps :
        (q : Str)
        → q ≢ conf_path cfg.domain
        → q ≢ link_path cfg.domain
        → entry (prepared cfg t) q ≡ entry t q
    prepared_keeps q n m =
        let conf = conf_path cfg.domain in
        let link' = link_path cfg.domain in
        let t₁ = mkdir_all cfg.docroot 0o755 ∷ t in
        let plain' : IsPlain (entry t₁ conf) =
          subst IsPlain (sym (disk.dir_keeps t cfg.docroot 0o755 conf)) plain in
        let t₂ = write_file conf (vhost_text cfg) 0o644 ∷ t₁ in
        disk.link_keeps (remove link' ∷ t₂) conf link' q m
        ∙ (disk.remove_keeps t₂ link' q m
            ∙ (disk.write_keeps t₁ conf (vhost_text cfg) 0o644 q plain' n
                ∙ disk.dir_keeps t cfg.docroot 0o755 q))

    -- Behind the reload.
    pub write_vhost-installs :
        Spares (conf_path cfg.domain)
        → Spares (link_path cfg.domain)
        → (write_vhost env cfg t).0 ≡ ok tt
        → (entry (write_vhost env cfg t).1 (conf_path cfg.domain) ≡ some (file (vhost_text cfg)))
          × (entry (write_vhost env cfg t).1 (link_path cfg.domain)
              ≡ some (link (conf_path cfg.domain)))
    write_vhost-installs spares spares' h =
        let (p, tested, _) = (write_vhost-ok_iff env cfg t).0 h in
        let calls = write_vhost-reloads env cfg t p tested in
        (
          ap (λ x. entry x (conf_path cfg.domain)) calls
              ∙ ((spares (nginx_t ∷ prepared cfg t)).1
                  ∙ ((spares (prepared cfg t)).0 ∙ prepared-conf p)),
          ap (λ x. entry x (link_path cfg.domain)) calls
              ∙ ((spares' (nginx_t ∷ prepared cfg t)).1
                  ∙ ((spares' (prepared cfg t)).0 ∙ prepared-link p)),
        )

    pub write_vhost_keeps :
        (q : Str)
        → Spares q
        → q ≢ conf_path cfg.domain
        → q ≢ link_path cfg.domain
        → (write_vhost env cfg t).0 ≡ ok tt
        → entry (write_vhost env cfg t).1 q ≡ entry t q
    write_vhost_keeps q spares n m h =
        let (p, tested, _) = (write_vhost-ok_iff env cfg t).0 h in
        ap (λ x. entry x q) (write_vhost-reloads env cfg t p tested)
        ∙ ((spares (nginx_t ∷ prepared cfg t)).1
            ∙ ((spares (prepared cfg t)).0 ∙ prepared_keeps q n m))

  module _ (cfg : VhostConfig) (t : Trace)
      (apart : link_path cfg.domain ≢ conf_path cfg.domain) where
    -- Behind the roll-back.
    pub rolled_back-gone :
        Succeeds env (nginx_t ∷ prepared cfg t) (remove (link_path cfg.domain))
        → Succeeds env
            (remove (link_path cfg.domain) ∷ nginx_t ∷ prepared cfg t)
            (remove (conf_path cfg.domain))
        → (entry (rolled_back cfg t) (conf_path cfg.domain) ≡ none)
          × (entry (rolled_back cfg t) (link_path cfg.domain) ≡ none)
    rolled_back-gone r r' =
        let t₁ = nginx_t ∷ prepared cfg t in
        (
          disk.removes (remove (link_path cfg.domain) ∷ t₁) (conf_path cfg.domain) r',
          disk.remove_keeps (remove (link_path cfg.domain) ∷ t₁) (conf_path cfg.domain)
                (link_path cfg.domain) apart
              ∙ disk.removes t₁ (link_path cfg.domain) r,
        )

pub with_docroot-domain : (cfg : VhostConfig) → (with_docroot cfg).domain ≡ cfg.domain
unfolding with_docroot
with_docroot-domain cfg = ground arith

-- Without a slash in the domain, the link is not the file.
pub link_path-ne-conf_path : (domain : Str) → Free 47 domain → link_path domain ≢ conf_path domain
unfolding bytes join
link_path-ne-conf_path domain h e =
    let (conf, link') = vhost_paths domain h in
    let same = ap (byte_at 17) (sym link' ∙ (e ∙ conf)) in omega (arith, same)
