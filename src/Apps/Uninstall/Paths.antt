-- ===== src/Apps/Uninstall/Paths.antt =====
-- LoadAppPaths of internal/apps/uninstall.go on the host.
use nass.Common.{◌≡◌, ap, sym, Option, none, some, Text, ◌==◌, text_eq_test, find_if}
use nass.Db.{Db, AppRow}
use nass.Db.Ensures.{ensures-total}
use nass.Host.{Host}
use nass.Host.Meets.{Untouched, Comes, SameHost, comes-return, comes-raise, comes-bind, comes-in_db}
use nass.Apps.Uninstall.{AppPaths, paths_of, loaded_paths, load_app_paths}

-- What LoadAppPaths reports of the table of apps.
abbrev pub AreFoundPaths : Text → Db → Option AppPaths → Type 0
AreFoundPaths name db found = paths_of (find_if (λ a. a.name == name) db.apps) ≡ some found

module _ (h : Host) (name : Text) where
  loaded_paths-Comes :
      (h' : Host) (row : Option AppRow) (paths : Option (Option AppPaths))
      → paths_of (find_if (λ a. a.name == name) h.world.db.apps) ≡ paths
      → SameHost h h'
      → h'.world.db ≡ h.world.db
      → Comes h'
          (loaded_paths paths)
          (λ found x.
            SameHost h x × (x.world.db ≡ h.world.db) × AreFoundPaths name h.world.db found)
          (λ t x. Untouched h x)
  loaded_paths-Comes h' row none e same kept = comes-raise _ (same, kept)
  loaded_paths-Comes h' row (some found) e same kept = comes-return _ (same, kept, e)

  pub load_app_paths-Comes :
      Comes h
        (load_app_paths name)
        (λ found x. SameHost h x × (x.world.db ≡ h.world.db) × AreFoundPaths name h.world.db found)
        (λ t x. Untouched h x)
  unfolding load_app_paths
  load_app_paths-Comes =
      comes-bind
        (λ row x.
          SameHost h x
          × (x.world.db ≡ h.world.db)
          × (find_if (λ a. a.name == name) h.world.db.apps ≡ row))
        _ _ _
        (comes-in_db
          {QD = λ row db. (db ≡ h.world.db) × (find_if (λ a. a.name == name) h.world.db.apps ≡ row)}
          {ED = λ db. db ≡ h.world.db} _
          (ensures-total (λ db. find_if (λ a. a.name == name) db.apps) (λ db. db)
            (λ db e. (e, ap (λ d. find_if (λ a. a.name == name) d.apps) (sym e))) (λ db e. e))
          (λ row x same (e, r). (same, e, r)) (λ t x same e. (same, e)))
        (λ row x (same, e, r). loaded_paths-Comes x row (paths_of row) (ap paths_of r) same e)
        (λ t x k. k)
