-- ===== src/Agent/Webserver/Outcomes.antt =====
-- What is on the disk behind CreateVhost and DeleteVhost of nginx.go.
use gratis.Agent.Webserver.Vhosts.{
  rolled_back, delete_vhost_calls, create_vhost-rolls_back, nginx_reload, delete_vhost-ok_iff,
  Succeeds, nginx_t, prepared, IsPrepared, is_gone,
}
use gratis.Agent.Webserver.Sites.{
  write_vhost-docroot, SparesDir, write_vhost_keeps, write_vhost-installs, rolled_back-gone,
  with_docroot-domain, link_path-ne-conf_path, Spares,
}
use gratis.Agent.Webserver.{
  write_vhost, vhost_text, delete_vhost, create_vhost, with_docroot, link_path, conf_path,
  VhostConfig,
}
use gratis.Host.Disk.{link, file, IsPlain, Disk}
use gratis.Host.{ok, remove, Error, Trace, Env}
use gratis.Base.{
  refl, ◌∙◌, ap, inr, Bool-cases, inl, sym, Option-cases, subst, ◌≢◌, some, true, none, ◌≡◌, ◌∷◌,
}
use gratis.Text.{str_eq_iff, str_eq, Free, Str}

module _ {env : Env} (disk : Disk env) (cfg : VhostConfig) (t : Trace)
    (plain : IsPlain (disk.entry t (conf_path cfg.domain))) (flat : Free 47 cfg.domain)
    (spares : Spares disk (conf_path cfg.domain))
    (spares' : Spares disk (link_path cfg.domain)) where
  -- On a host with files, links and directories (`Disk`), for a domain without a slash whose
  -- configuration is no link before, whose document root, as CreateVhost fills it in, is not the path of
  -- its link, and where nginx leaves these three paths alone: CreateVhost that succeeds has put the
  -- rendered template into the file and the link to it in its place, its document root is a directory,
  -- and at every other path that nginx leaves alone the file or the link, or that there is none, is as
  -- before.
  pub create_vhost-installs :
      SparesDir disk (with_docroot cfg).docroot
      → (with_docroot cfg).docroot ≢ link_path cfg.domain
      → (create_vhost env cfg t).0 ≡ ok tt
      → (disk.entry (create_vhost env cfg t).1 (conf_path cfg.domain)
          ≡ some (file (vhost_text (with_docroot cfg))))
        × (disk.entry (create_vhost env cfg t).1 (link_path cfg.domain)
            ≡ some (link (conf_path cfg.domain)))
        × (disk.is_dir (create_vhost env cfg t).1 (with_docroot cfg).docroot ≡ true)
        × ((q : Str)
            → Spares disk q
            → q ≢ conf_path cfg.domain
            → q ≢ link_path cfg.domain
            → disk.entry (create_vhost env cfg t).1 q ≡ disk.entry t q)
  unfolding create_vhost
  create_vhost-installs spares_dir elsewhere h =
      let site = with_docroot cfg in
      let e : cfg.domain ≡ site.domain = sym (with_docroot-domain cfg) in
      let plain' : IsPlain (disk.entry t (conf_path site.domain)) =
        subst (λ d. IsPlain (disk.entry t (conf_path d))) e plain in
      let apart' : link_path site.domain ≢ conf_path site.domain =
        subst (λ d. link_path d ≢ conf_path d) e (link_path-ne-conf_path cfg.domain flat) in
      let (conf, link') =
        write_vhost-installs disk site t plain' apart'
          (subst (λ d. Spares disk (conf_path d)) e spares)
          (subst (λ d. Spares disk (link_path d)) e spares') h in
      let end = (write_vhost env site t).1 in
      (
        subst (λ d. disk.entry end (conf_path d) ≡ some (file (vhost_text site))) (sym e) conf,
        subst (λ d. disk.entry end (link_path d) ≡ some (link (conf_path d))) (sym e) link',
        write_vhost-docroot disk site t spares_dir
            (subst (λ d. site.docroot ≢ link_path d) e elsewhere) h,
        λ q keeps n m.
            write_vhost_keeps disk site t plain' apart' q keeps (subst (λ d. q ≢ conf_path d) e n)
              (subst (λ d. q ≢ link_path d) e m) h,
      )

-- On a host with files (`Disk`), for a domain without a slash: where the new configuration is in place,
-- nginx refuses it and the removals succeed, CreateVhost leaves neither a file nor a link for the
-- domain, whatever there was before.
pub create_vhost-loses_old :
    {env : Env} (disk : Disk env) (cfg : VhostConfig) (t : Trace)
    → Free 47 cfg.domain
    → {e : Error} → IsPrepared env (with_docroot cfg) t
    → (env (prepared (with_docroot cfg) t) nginx_t).failure ≡ some e
    → Succeeds env (nginx_t ∷ prepared (with_docroot cfg) t) (remove (link_path cfg.domain))
    → Succeeds env
        (remove (link_path cfg.domain) ∷ nginx_t ∷ prepared (with_docroot cfg) t)
        (remove (conf_path cfg.domain))
    → (disk.entry (create_vhost env cfg t).1 (conf_path cfg.domain) ≡ none)
      × (disk.entry (create_vhost env cfg t).1 (link_path cfg.domain) ≡ none)
create_vhost-loses_old {env} disk cfg t flat p failed r r' =
    let site = with_docroot cfg in
    let e : cfg.domain ≡ site.domain = sym (with_docroot-domain cfg) in
    let apart' : link_path site.domain ≢ conf_path site.domain =
      subst (λ d. link_path d ≢ conf_path d) e (link_path-ne-conf_path cfg.domain flat) in
    let t₁ = nginx_t ∷ prepared site t in
    let (conf, link') =
      rolled_back-gone disk site t apart' (subst (λ d. Succeeds env t₁ (remove (link_path d))) e r)
        (subst (λ d. Succeeds env (remove (link_path d) ∷ t₁) (remove (conf_path d))) e r') in
    let calls = (create_vhost-rolls_back env cfg t p failed).0 in
    (
      ap (λ x. disk.entry x (conf_path cfg.domain)) calls
          ∙ subst (λ d. disk.entry (rolled_back site t) (conf_path d) ≡ none) (sym e) conf,
      ap (λ x. disk.entry x (link_path cfg.domain)) calls
          ∙ subst (λ d. disk.entry (rolled_back site t) (link_path d) ≡ none) (sym e) link',
    )

-- DeleteVhost on the disk.
module _ {env : Env} (disk : Disk env) (domain : Str) (t : Trace) (flat : Free 47 domain) where
  removed :
      (path : Str) (t : Trace)
      → is_gone (env t (remove path)).failure ≡ true
      → disk.entry (remove path ∷ t) path ≡ none
  removed path t gone = elim (Option-cases (env t (remove path)).failure) [
    | inl e ↦ disk.removes t path e
    | inr (x, e) ↦ disk.remove_misses t path x e (ap is_gone (sym e) ∙ gone)
  ]

  -- On a host with files (`Disk`), for a domain without a slash whose two paths nginx leaves alone:
  -- DeleteVhost that succeeds has removed the file, and the link unless its removal failed, and at
  -- every other path that nginx leaves alone nothing has changed.
  pub delete_vhost-removes :
      Spares disk (conf_path domain)
      → Spares disk (link_path domain)
      → (delete_vhost env domain t).0 ≡ ok tt
      → (disk.entry (delete_vhost env domain t).1 (conf_path domain) ≡ none)
        × (is_gone (env t (remove (link_path domain))).failure ≡ true
            → disk.entry (delete_vhost env domain t).1 (link_path domain) ≡ none)
        × ((q : Str)
            → Spares disk q
            → q ≢ conf_path domain
            → q ≢ link_path domain
            → disk.entry (delete_vhost env domain t).1 q ≡ disk.entry t q)
        × ((q : Str)
            → SparesDir disk q
            → q ≢ conf_path domain
            → q ≢ link_path domain
            → disk.is_dir (delete_vhost env domain t).1 q ≡ disk.is_dir t q)
  delete_vhost-removes spares spares' h =
      let conf = conf_path domain in
      let link' = link_path domain in
      let apart = link_path-ne-conf_path domain flat in
      let (gone, _) = (delete_vhost-ok_iff env domain t).0 h in
      let t₁ = remove link' ∷ t in
      let calls : (delete_vhost env domain t).1 ≡ nginx_reload ∷ remove conf ∷ t₁ =
        delete_vhost_calls env domain t ∙ rw gone refl in
      (
        ap (λ x. disk.entry x conf) calls ∙ ((spares (remove conf ∷ t₁)).1 ∙ removed conf t₁ gone),
        λ gone'.
            ap (λ x. disk.entry x link') calls
            ∙ ((spares' (remove conf ∷ t₁)).1
                ∙ (disk.remove_keeps t₁ conf link' apart ∙ removed link' t gone')),
        λ q keeps n m.
            ap (λ x. disk.entry x q) calls
            ∙ ((keeps (remove conf ∷ t₁)).1
                ∙ (disk.remove_keeps t₁ conf q n ∙ disk.remove_keeps t link' q m)),
        λ q keeps n m.
            ap (λ x. disk.is_dir x q) calls
            ∙ ((keeps (remove conf ∷ t₁)).1
                ∙ (disk.remove_keeps_dirs t₁ conf q n ∙ disk.remove_keeps_dirs t link' q m)),
      )

-- On a host with files, links and directories (`Disk`), for a domain without a slash that has neither
-- file nor link before, whose document root, as CreateVhost fills it in, is not one of these two paths,
-- and where nginx leaves these three paths alone: where CreateVhost and then DeleteVhost succeed, the
-- removal of the link included, the document root stays behind as a directory, and at every path that
-- nginx leaves alone the file or the link, or that there is none, is as before.
pub delete_vhost-create_vhost :
    {env : Env} (disk : Disk env) (cfg : VhostConfig) (t : Trace)
    → Free 47 cfg.domain
    → Spares disk (conf_path cfg.domain)
    → Spares disk (link_path cfg.domain)
    → disk.entry t (conf_path cfg.domain) ≡ none
    → disk.entry t (link_path cfg.domain) ≡ none
    → SparesDir disk (with_docroot cfg).docroot
    → (with_docroot cfg).docroot ≢ conf_path cfg.domain
    → (with_docroot cfg).docroot ≢ link_path cfg.domain
    → (create_vhost env cfg t).0 ≡ ok tt
    → (delete_vhost env cfg.domain (create_vhost env cfg t).1).0 ≡ ok tt
    → is_gone (env (create_vhost env cfg t).1 (remove (link_path cfg.domain))).failure ≡ true
    → (disk.is_dir
          (delete_vhost env cfg.domain (create_vhost env cfg t).1).1
          (with_docroot cfg).docroot
        ≡ true)
      × ((q : Str)
          → Spares disk q
          → disk.entry (delete_vhost env cfg.domain (create_vhost env cfg t).1).1 q
            ≡ disk.entry t q)
delete_vhost-create_vhost {env} disk cfg t flat spares spares' no_conf no_link spares_dir off off'
      created deleted gone =
    let t' = (create_vhost env cfg t).1 in
    let plain : IsPlain (disk.entry t (conf_path cfg.domain)) = subst IsPlain (sym no_conf) tt in
    let (_, _, made, same) =
      create_vhost-installs disk cfg t plain flat spares spares' spares_dir off' created in
    let (conf, link', same', dirs) =
      delete_vhost-removes disk cfg.domain t' flat spares spares' deleted in
    (
      dirs (with_docroot cfg).docroot spares_dir off off' ∙ made,
      λ q keeps. elim (Bool-cases (str_eq q (conf_path cfg.domain))) [
        | inl e ↦
            let at = (str_eq_iff q (conf_path cfg.domain)).0 e in
            subst (λ x. disk.entry (delete_vhost env cfg.domain t').1 x ≡ disk.entry t x) (sym at)
              (conf ∙ sym no_conf)
        | inr n ↦ elim (Bool-cases (str_eq q (link_path cfg.domain))) [
          | inl e ↦
              let at = (str_eq_iff q (link_path cfg.domain)).0 e in
              subst (λ x. disk.entry (delete_vhost env cfg.domain t').1 x ≡ disk.entry t x) (sym at)
                (link' gone ∙ sym no_link)
          | inr m ↦
              let a : q ≢ conf_path cfg.domain =
                λ e. cc (n, (str_eq_iff q (conf_path cfg.domain)).1 e) in
              let b : q ≢ link_path cfg.domain =
                λ e. cc (m, (str_eq_iff q (link_path cfg.domain)).1 e) in
              same' q keeps a b ∙ same q keeps a b
        ]
      ],
    )
