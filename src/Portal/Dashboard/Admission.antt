-- ===== src/Portal/Dashboard/Admission.antt =====
-- requireSession and requireAdmin of internal/portal/portal.go before a handler on the host, and the table of
-- apps that the handlers read.
use nass.Common.{ℕ, ◌≡◌, refl, sym, ap, true, Bool, Option, none, some, Text, inl, inr, arith, List}
use nass.Db.{Db}
use nass.Db.Ensures.{ensures-total}
use nass.Host.{H, Host, Trouble, Outcome, done, fails}
use nass.Host.Meets.{
  Untouched, Comes, Meets, SameHost, comes-return, comes-raise, comes-when, comes-bind,
  comes-caught, comes-in_db,
}
use nass.Sessions.{Session}
use nass.Sessions.Lookup.{IsSessionOf, IsFound, find-ensures}
use nass.Portal.Dashboard.{
  DbApp, PortalPage, to_login, admin_required, server_error, with_session, require_session,
  require_admin, selected_apps, apps_of, loaded_apps, load_apps,
}

-- Nothing but sessions that are out of date may be gone.
abbrev pub SameButSessions : Db → Db → Type 0
SameButSessions before db = db ≡ record before { portal_sessions = db.portal_sessions }

-- Nothing was asked of the system, and the database is the same but for sessions.
abbrev pub KeepsAll : Host → Host → Type 0
KeepsAll h h' = SameHost h h' × SameButSessions h.world.db h'.world.db

abbrev pub IsTurnedAway : PortalPage → Type 0
IsTurnedAway (to_login uri) = Unit {0}
IsTurnedAway admin_required = Unit {0}
IsTurnedAway (server_error t) = Unit {0}
IsTurnedAway page = ⊥

pub same_db : (before db : Db) → db ≡ before → SameButSessions before db
same_db before db e = rw e refl

same_but_session :
    (cookie : Text) (now : ℕ) (before db : Db)
    → IsFound cookie now before none db
    → SameButSessions before db
same_but_session cookie now before db (absent, inl e) = same_db before db e
same_but_session cookie now before db (absent, inr e) = rw e refl

module _ {A : Type 0} (cookie uri : Text) (page : PortalPage → A) (rest : Session → H A) (h : Host)
    {Q : A → Host → Type 0} {E : Trouble → Host → Type 0}
    (away : (p : PortalPage) (h' : Host) → IsTurnedAway p → KeepsAll h h' → Q (page p) h') where
  module _
      (admitted : (s : Session) (h' : Host)
        → IsSessionOf cookie h.world.now h.world.db s
        → SameHost h h'
        → h'.world.db ≡ h.world.db
        → Comes h' (rest s) Q E) where
    with_session-Comes :
        (o : Outcome (Option Session)) (h' : Host)
        → Meets
            (λ found x. SameHost h x × IsFound cookie h.world.now h.world.db found x.world.db)
            (λ t x. Untouched h x)
            (o, h')
        → Comes h' (with_session page uri rest o) Q E
    with_session-Comes (fails t) h' (same, e) =
        comes-return _ (away (server_error t) h' tt (same, same_db h.world.db h'.world.db e))
    with_session-Comes (done none) h' (same, f) = comes-return _ (
        away (to_login uri) h' tt
          (same, same_but_session cookie h.world.now h.world.db h'.world.db f))
    with_session-Comes (done (some s)) h' (same, (session, e)) = admitted s h' session same e

    pub require_session-Comes : Comes h (require_session page (some cookie) uri rest) Q E
    unfolding require_session
    require_session-Comes =
        comes-caught _ _ _ _
          (comes-in_db _ (find-ensures cookie h.world.now h.world.db) (λ a h' same q. (same, q))
            (λ t h' same e. (same, e)))
          with_session-Comes

module _ {A : Type 0} (cookie uri : Text) (page : PortalPage → A) (rest : Session → H A) (h : Host)
    {Q : A → Host → Type 0} {E : Trouble → Host → Type 0}
    (away : (p : PortalPage) (h' : Host) → IsTurnedAway p → KeepsAll h h' → Q (page p) h')
    (admitted : (s : Session) (h' : Host)
      → IsSessionOf cookie h.world.now h.world.db s
      → s.user.is_admin ≡ true
      → SameHost h h'
      → h'.world.db ≡ h.world.db
      → Comes h' (rest s) Q E) where
  pub require_admin-Comes : Comes h (require_admin page (some cookie) uri rest) Q E
  unfolding require_admin
  require_admin-Comes = require_session-Comes cookie uri page _ h away λ s h' session same e.
      comes-when _ _ _
        (λ t. comes-return _ (away admin_required h' tt (same, same_db h.world.db h'.world.db e)))
        (λ t. admitted s h' session (ground (arith, t)) same e)

-- The apps that a page is about are those of the table, or there was an error.
module _ (h : Host) where
  abbrev pub IsLoaded : Bool → List DbApp → Host → Type 0
  IsLoaded enabled_only apps h' =
      SameHost h h'
      × (h'.world.db ≡ h.world.db)
      × (apps_of (selected_apps enabled_only h.world.db) ≡ some apps)

  loaded_apps-Comes :
      (enabled_only : Bool) (h' : Host) (apps : Option (List DbApp))
      → apps_of (selected_apps enabled_only h.world.db) ≡ apps
      → SameHost h h'
      → h'.world.db ≡ h.world.db
      → Comes h' (loaded_apps apps) (IsLoaded enabled_only) (λ t x. Untouched h x)
  loaded_apps-Comes enabled_only h' none e same kept = comes-raise _ (same, kept)
  loaded_apps-Comes enabled_only h' (some apps) e same kept = comes-return _ (same, kept, e)

  pub load_apps-Comes :
      (enabled_only : Bool)
      → Comes h (load_apps enabled_only) (IsLoaded enabled_only) (λ t x. Untouched h x)
  unfolding load_apps
  load_apps-Comes enabled_only =
      comes-bind
        (λ rows h'.
          SameHost h h'
          × (h'.world.db ≡ h.world.db)
          × (selected_apps enabled_only h.world.db ≡ rows))
        _ _ _
        (comes-in_db
          {QD = λ rows db. (db ≡ h.world.db) × (selected_apps enabled_only h.world.db ≡ rows)}
          {ED = λ db. db ≡ h.world.db} _
          (ensures-total (selected_apps enabled_only) (λ db. db)
            (λ db e. (e, ap (selected_apps enabled_only) (sym e))) (λ db e. e))
          (λ rows h' same (e, r). (same, e, r)) (λ t h' same e. (same, e)))
        (λ rows h' (same, e, r). loaded_apps-Comes enabled_only h' _ (ap apps_of r) same e)
        (λ t h' k. k)
