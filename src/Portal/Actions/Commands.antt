-- ===== src/Portal/Actions/Commands.antt =====
-- What a request to start or to stop an app has run.
use nass.Common.{
  ◌≡◌, true, false, Option, some, Text, arith, List, ◌∷◌, ◌⊎◌, find_if, is_empty, ◌==◌,
  text_eq_test,
}
use nass.Db.{Db}
use nass.Host.{H, Host, Call, fine, broken, Failure, Trouble}
use nass.Host.Meets.{Comes, Meets, SameHost, comes-return, comes-when}
use nass.Orchestrator.{Orchestrator}
use nass.Orchestrator.Commands.{IsCommand}
use nass.Sessions.{Session}
use nass.Sessions.Lookup.{IsSessionOf}
use nass.Portal.Login.{same_origin}
use nass.Portal.Dashboard.{
  DbApp, PortalPage, dashboard, administration, not_found, admin_required, cross_origin, bad_form,
  to_login, server_error, flashes, reports, reports_error, selected_apps, apps_of,
}
use nass.Portal.Dashboard.Admission.{KeepsAll, IsTurnedAway, require_admin-Comes, same_db}
use nass.Portal.Actions.{Portal, AppForm, Handled, answers, starts, compose_file, guarded}

-- No job is started, and the page reports no success.
abbrev pub IsPlain : PortalPage → Type 0
IsPlain (flashes message) = ⊥
IsPlain page = Unit {0}

abbrev pub IsRefusal : Handled → Type 0
IsRefusal (answers page) = IsPlain page
IsRefusal (starts action name job page) = ⊥

pub away-IsPlain : (page : PortalPage) → IsTurnedAway page → IsPlain page
away-IsPlain (to_login uri) t = tt
away-IsPlain admin_required t = tt
away-IsPlain (server_error e) t = tt
away-IsPlain not_found t = tt
away-IsPlain cross_origin t = tt
away-IsPlain bad_form t = tt
away-IsPlain (dashboard tiles) t = tt
away-IsPlain (administration view) t = tt
away-IsPlain (reports m) t = tt
away-IsPlain (reports_error m e) t = tt
away-IsPlain (flashes m) t = t

-- The file that the table of apps has for a name.
abbrev pub IsFileOf : Text → Db → Text → Type 0
IsFileOf name db path =
    (apps : List DbApp) × (a : DbApp) × (apps_of (selected_apps false db) ≡ some apps)
    × (find_if (λ (b : DbApp). b.name == name) apps ≡ some a)
    × (a.settings.compose_file ≡ path)
    × (is_empty path ≡ false)

-- That file was found, and nothing done.
abbrev pub IsFileIn : Host → Text → Text → Host → Type 0
IsFileIn h name path x = SameHost h x × (x.world.db ≡ h.world.db) × IsFileOf name h.world.db path

module _ (p : Portal) (url_host : Text → Option Text) (cookie : Text) (f : AppForm) (h : Host) where
  -- The request is that of an administrator, from a page of this host.
  abbrev pub IsAuthorized : Type 0
  IsAuthorized =
      (s : Session) × IsSessionOf cookie h.world.now h.world.db s
      × (s.user.is_admin ≡ true)
      × (same_origin url_host f.origin f.referer f.host ≡ true)

  module _ {Q : Handled → Host → Type 0} {E : Trouble → Host → Type 0} (rest : H Handled)
      (refuse : (answer : Handled) (h' : Host) → IsRefusal answer → KeepsAll h h' → Q answer h')
      (admitted : (h' : Host)
        → IsAuthorized
        → SameHost h h'
        → h'.world.db ≡ h.world.db
        → Comes h' rest Q E) where
    pub guarded-Comes : Comes h (guarded p url_host (some cookie) f rest) Q E
    guarded-Comes =
        require_admin-Comes cookie f.uri answers _ h
          (λ page h' t k. refuse (answers page) h' (away-IsPlain page t) k)
          λ s h' session admin same e.
            comes-when _ _ _
              (λ t.
                comes-return _
                  (refuse (answers cross_origin) h' tt (same, same_db h.world.db h'.world.db e)))
              (λ t. admitted h' (s, session, admin, ground (arith, t)) same e)

  -- One command was run, and the page tells whether the system has reported an error.
  abbrev pub IsTold : Text → Text → Call → Handled → Type 0
  IsTold did failed c answer =
      ((out : Text) × (h.reply h.made c ≡ fine out) × (answer ≡ answers (flashes did)))
      ⊎ ((e : Failure) × (out : Text) × (t : Trouble) × (h.reply h.made c ≡ broken e out)
          × (answer ≡ answers (reports_error failed t)))

  abbrev pub IsOrdered : List Text → Text → Text → Handled → Host → Type 0
  IsOrdered args did failed answer h' =
      IsAuthorized
      × ((o : Orchestrator) × (path : Text) × (c : Call) × (p.orchestrator ≡ some o)
          × IsFileOf f.name h.world.db path
          × IsCommand o path args c
          × (h'.calls ≡ c ∷ h.calls)
          × (h'.world.db ≡ h.world.db)
          × IsTold did failed c answer)

  abbrev pub IsReply : List Text → Text → Text → Handled → Host → Type 0
  IsReply args did failed answer h' =
      IsOrdered args did failed answer h' ⊎ (IsRefusal answer × KeepsAll h h')
