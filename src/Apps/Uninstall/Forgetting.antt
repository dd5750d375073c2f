-- ===== src/Apps/Uninstall/Forgetting.antt =====
-- Uninstall removes an app from the database.
use nass.Common.{ℕ, ◌≡◌, refl, ◌∙◌, Bool, true, Text}
use nass.Db.{Db}
use nass.Db.Ensures.{Ensures, ensures-pure, ensures-bind, ensures-total, Anything}
use nass.Host.{Host}
use nass.Host.Meets.{
  Comes, comes-return, comes-raise, comes-wrapped, comes-when, comes-bind, comes-in_db,
}
use nass.Oidc.Clients.{cleanup_client}
use nass.Oidc.Clients.Lifecycle.{IsDeletion, delete_client-ensures}
use nass.Apps.Uninstall.{UninstallContext, has_app, delete_app, delete_app_row, forget_app}

-- The app has lost its client and its row.
abbrev pub IsForgotten : Text → Db → Db → Type 0
IsForgotten name before db =
    (found : Bool) × (between : Db) × IsDeletion name found before between
    × (has_app name between ≡ true)
    × (db ≡ delete_app name between)

cleanup_client-ensures :
    (n : ℕ) (name : Text) (before : Db)
    → Ensures n
        (λ db. db ≡ before)
        (cleanup_client name)
        (λ _ db. (found : Bool) × IsDeletion name found before db)
        (λ db. db ≡ before)
unfolding cleanup_client
cleanup_client-ensures n name before =
    ensures-bind _ _ _ (delete_client-ensures name n before)
      λ found. ensures-pure _ (λ db p. (found, p))

delete_app_row-ensures :
    (n : ℕ) (name : Text) (before : Db)
    → Ensures n
        (λ db. db ≡ before)
        (delete_app_row name)
        (λ found db. (has_app name before ≡ found) × (db ≡ delete_app name before))
        Anything
unfolding delete_app_row
delete_app_row-ensures n name before =
    ensures-total (has_app name) (delete_app name) (λ db p. rw p (refl, refl)) (λ db p. tt)

module _ (uc : UninstallContext) where
  pub forget_app-Comes :
      (h : Host)
      → Comes h
          (forget_app uc)
          (λ _ h'. (h'.calls ≡ h.calls) × IsForgotten uc.name h.world.db h'.world.db)
          (λ t h'. h'.calls ≡ h.calls)
  forget_app-Comes h =
      comes-bind
        (λ _ h1.
          (h1.calls ≡ h.calls) × (found : Bool) × IsDeletion uc.name found h.world.db h1.world.db)
        (λ t h1. h1.calls ≡ h.calls) _ _
        (comes-wrapped _ _ (
          comes-in_db _ (cleanup_client-ensures h.world.now uc.name h.world.db)
            (λ _ h1 s (found, d). (s.1, found, d)) (λ t h1 s e. s.1)))
        (λ _ h1 (e1, client, d).
          comes-bind
            (λ found h2.
              (h2.calls ≡ h1.calls)
              × (has_app uc.name h1.world.db ≡ found)
              × (h2.world.db ≡ delete_app uc.name h1.world.db))
            (λ t h2. h2.calls ≡ h1.calls) _ _
            (comes-wrapped _ _ (
              comes-in_db _ (delete_app_row-ensures h1.world.now uc.name h1.world.db)
                (λ found h2 s (f, e). (s.1, f, e)) (λ t h2 s e. s.1)))
            (λ found h2 (e2, f, e).
              comes-when _ _ _ (λ t. comes-return _ (e2 ∙ e1, (client, h1.world.db, d, f ∙ t, e)))
                (λ t. comes-raise _ (e2 ∙ e1)))
            (λ t h2 e2. e2 ∙ e1))
        (λ t h1 e1. e1)
