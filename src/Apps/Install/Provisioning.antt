-- ===== src/Apps/Install/Provisioning.antt =====
-- Install of internal/apps/install.go gives the app an OIDC client, where it needs one.
use nass.Common.{ℕ, ◌≡◌, refl, sym, Bool, true, false, Option, none, some, List, Text}
use mathlib.Core.Path.{subst}
use nass.Db.{Db}
use nass.Host.{Host}
use nass.Host.Meets.{
  Untouched, Untouched-refl, Comes, SameHost, comes-return, comes-raise, comes-to, comes-wrapped,
  comes-when, comes-bind, comes-in_db,
}
use nass.Users.{Bcrypt}
use nass.Oidc.Clients.{ProvisionResult}
use nass.Oidc.Clients.Lifecycle.{IsProvisioned, provision-ensures}
use nass.Apps.{Spec, InstallContext}
use nass.Apps.Install.{with_client, provision_for, provision_with, provision_client}

module _ (url_hostname : Text → Option Text) (bcrypt : Bcrypt)
    (render : Text → InstallContext → Option Text) (is_done port_available : ℕ → Bool)
    (spec : Spec) where
  -- Where the app needs one, it has got a client of its own, and its secret is in the context.
  abbrev pub HasClientIf : Bool → ℕ → Db → InstallContext → InstallContext → Db → Type 0
  HasClientIf true now before resolved ic db =
      (uris : InstallContext → List Text) × (spec.oidc_redirect_uris ≡ some uris)
      × (r : ProvisionResult) × IsProvisioned bcrypt resolved.name (uris resolved) now before r db
      × (ic ≡ with_client resolved r)
  HasClientIf false now before resolved ic db = (ic ≡ resolved) × (db ≡ before)

  abbrev pub HasClient : ℕ → Db → InstallContext → InstallContext → Db → Type 0
  HasClient = HasClientIf spec.needs_oidc

  provision_for-Comes :
      (h : Host) (resolved : InstallContext) (redirects : List Text)
      → Comes h
          (provision_for url_hostname bcrypt resolved redirects)
          (λ ic h'.
            SameHost h h'
            × (r : ProvisionResult) × IsProvisioned bcrypt resolved.name redirects h.world.now
                h.world.db r h'.world.db
            × (ic ≡ with_client resolved r))
          (λ t h'. Untouched h h')
  provision_for-Comes h resolved redirects =
      comes-when _ _ _ (λ t. comes-raise _ (Untouched-refl h))
        (λ t.
          comes-bind
            (λ r h'.
              SameHost h h'
              × IsProvisioned bcrypt resolved.name redirects h.world.now h.world.db r h'.world.db)
            (λ t' h'. Untouched h h') _ _
            (comes-wrapped _ _ (
              comes-in_db _
                (provision-ensures bcrypt resolved.name redirects h.world.now h.world.db)
                (λ r h' s p. (s, p)) (λ t' h' s e. (s, e))))
            (λ r h' (s, p). comes-return _ (s, r, p, refl)) (λ t' h' u. u))

  provision_with-Comes :
      (h : Host) (resolved : InstallContext) (o : Option (InstallContext → List Text))
      → spec.oidc_redirect_uris ≡ o
      → Comes h
          (provision_with url_hostname bcrypt resolved o)
          (λ ic h'. SameHost h h' × HasClientIf true h.world.now h.world.db resolved ic h'.world.db)
          (λ t h'. Untouched h h')
  provision_with-Comes h resolved none e = comes-raise _ (Untouched-refl h)
  provision_with-Comes h resolved (some uris) e =
      comes-to _ _ _ (λ ic h' (s, r, p, q). (s, (uris, e, r, p, q))) (λ t h' u. u)
        (provision_for-Comes h resolved (uris resolved))

  pub provision_client-Comes :
      (h : Host) (resolved : InstallContext)
      → Comes h
          (provision_client url_hostname bcrypt spec resolved)
          (λ ic h'. SameHost h h' × HasClient h.world.now h.world.db resolved ic h'.world.db)
          (λ t h'. Untouched h h')
  provision_client-Comes h resolved =
      comes-when _ _ _
        (λ t.
          comes-to _ _ _
            (λ ic h' (s, c). (
              s,
              subst (λ b. HasClientIf b h.world.now h.world.db resolved ic h'.world.db) (sym t) c,
            ))
            (λ t' h' u. u) (provision_with-Comes h resolved spec.oidc_redirect_uris refl))
        (λ t. comes-return _ (
          (refl, refl, refl, refl),
          subst (λ b. HasClientIf b h.world.now h.world.db resolved resolved h.world.db) (sym t)
              (refl, refl),
        ))
