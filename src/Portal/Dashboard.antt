-- ===== src/Portal/Dashboard.antt =====
-- internal/portal/dashboard.go, and getAdmin of internal/portal/admin.go: what the pages show of the apps.
-- The templates are not part of the model: a page is the data that it is rendered from.
pub mod Admission
use nass.Common.{
  ℕ, Bool, true, false, Option, none, some, List, [], ◌∷◌, ◌++◌, map, Text, text, is_empty, not,
  ◌==◌, nat_eq_test, text_eq_test, keep_if, any_of, if◌then◌else◌, Dict,
}
use nass.Db.{Db, AppRow, AppSettings, SettingsJson, blank, broken, decoded, no_settings}
use nass.Db.Monad.{M, query}
use nass.Users.{User, list}
use nass.Sessions.{Session, find}
use nass.Proxy.Manager.{order_by_name}
use nass.Host.{
  H, Trouble, says, from_db, Outcome, done, fails, return, raise, in_db, caught, when, ◌>>=◌,
}
use nass.Orchestrator.{Orchestrator, State, running, stopped, unknown, status}
use nass.Apps.{Spec, get, all}
use nass.Portal.Jobs.{AppJob, JobBoard, recent_jobs, has_running_job}

pub record DbApp : Type 0 where
  pub name : Text
  pub enabled : Bool
  pub settings : AppSettings

pub record DashboardTile : Type 0 where
  pub name : Text
  pub display_name : Text
  pub description : Text
  pub icon : Text
  pub url : Text
  pub state : State

pub record AdminAppRow : Type 0 where
  pub name : Text
  pub display_name : Text
  pub description : Text
  pub subdomain : Text
  pub settings : AppSettings
  pub state : Option State
  pub is_installed : Bool
  pub is_installing : Bool

pub record AdminUserRow : Type 0 where
  pub id : ℕ
  pub username : Text
  pub email : Text
  pub is_admin : Bool
  pub is_self : Bool

pub record AdminView : Type 0 where
  pub apps : List AdminAppRow
  pub users : List AdminUserRow
  pub jobs : List AppJob
  pub flash : Text
  pub error : Text

-- What the handlers of the portal answer; a redirect to the administration keeps its message as data.
pub data PortalPage : Type 0 where
  not_found admin_required cross_origin bad_form : PortalPage
  to_login : Text → PortalPage
  server_error : Trouble → PortalPage
  dashboard : List DashboardTile → PortalPage
  administration : AdminView → PortalPage
  flashes reports : Text → PortalPage
  reports_error : Text → Trouble → PortalPage

abbrev pub display_name : DbApp → Text
display_name a = if is_empty a.settings.display_name then a.name else a.settings.display_name

-- `WHERE enabled = 1`, where it is asked for, and `ORDER BY name`.
abbrev pub selected_apps : Bool → Db → List AppRow
selected_apps enabled_only db =
    order_by_name (if enabled_only then keep_if (λ a. a.enabled == 1) db.apps else db.apps)

abbrev pub app_with : AppRow → AppSettings → DbApp
app_with a settings = record { name = a.name; enabled = not (a.enabled == 0); settings = settings }

abbrev pub app_of : AppRow → SettingsJson → Option DbApp
app_of a blank = some (app_with a no_settings)
app_of a broken = none
app_of a (decoded s) = some (app_with a s)

abbrev pub add_app : Option DbApp → Option (List DbApp) → Option (List DbApp)
add_app none apps = none
add_app (some a) none = none
add_app (some a) (some apps) = some (a ∷ apps)

-- The loop over the rows; it ends at one that does not decode.
unfoldable pub apps_of : List AppRow → Option (List DbApp)
apps_of [] = some []
apps_of (a ∷ rows) = add_app (app_of a a.settings_json) (apps_of rows)

abbrev pub loaded_apps : Option (List DbApp) → H (List DbApp)
loaded_apps none = raise (says (text "json: cannot unmarshal"))
loaded_apps (some apps) = return apps

unfoldable pub load_apps : Bool → H (List DbApp)
load_apps enabled_only = do
  rows ← in_db (query (selected_apps enabled_only))
  loaded_apps (apps_of rows)

unfoldable pub load_apps_for_dashboard : H (List DbApp)
load_apps_for_dashboard = load_apps true

unfoldable pub load_all_apps : H (List DbApp)
load_all_apps = load_apps false

abbrev pub link_scheme : Bool → Text
link_scheme https = if not https then text "http" else text "https"

abbrev pub app_host_url : Bool → Text → Text → Text
app_host_url https base_host subdomain =
    link_scheme https ++ (text "://" ++ (subdomain ++ b'.' ∷ base_host))

-- requireSession and requireAdmin, before the rest of a handler on the host.
abbrev pub with_session :
    {A : Type 0} → (PortalPage → A) → Text → (Session → H A) → Outcome (Option Session) → H A
with_session page uri rest (fails t) = return (page (server_error t))
with_session page uri rest (done none) = return (page (to_login uri))
with_session page uri rest (done (some s)) = rest s

unfoldable pub require_session :
    {A : Type 0} → (PortalPage → A) → Option Text → Text → (Session → H A) → H A
require_session page cookie uri rest = do
  found ← caught (in_db (find cookie))
  with_session page uri rest found

unfoldable pub require_admin :
    {A : Type 0} → (PortalPage → A) → Option Text → Text → (Session → H A) → H A
require_admin page cookie uri rest =
    require_session page cookie uri
      λ s. when (not s.user.is_admin) (return (page admin_required)) (rest s)

-- `http.Error(w, err.Error(), 500)`, or the rest.
abbrev pub or_server_error : {A : Type 0} → (A → H PortalPage) → Outcome A → H PortalPage
or_server_error rest (fails t) = return (server_error t)
or_server_error rest (done a) = rest a

abbrev pub state_or_unknown : Outcome State → H State
state_or_unknown (fails t) = return unknown
state_or_unknown (done state) = return state

module _ (json_array : Text → Option (List (Option Text)))
    (json_object : Text → Option (Option Text)) (orchestrator : Option Orchestrator) where
  abbrev pub state_with : Option Orchestrator → Text → H State
  state_with none compose_file = return unknown
  state_with (some o) compose_file =
      when (is_empty compose_file) (return unknown)
        (do state ← caught (status json_array json_object o compose_file); state_or_unknown state)

  unfoldable pub state_of : DbApp → H State
  state_of a = state_with orchestrator a.settings.compose_file

  module _ (https : Bool) (base_host : Text) where
    abbrev pub tile : DbApp → State → DashboardTile
    tile a state = record {
      name = a.name;
      display_name = display_name a;
      description = a.settings.description;
      icon = a.settings.icon;
      url = app_host_url https base_host a.settings.subdomain;
      state = state;
    }

    unfoldable pub tiles : List DbApp → H (List DashboardTile)
    tiles [] = return []
    tiles (a ∷ apps) = do state ← state_of a; rest ← tiles apps; return (tile a state ∷ rest)

    unfoldable pub get_dashboard : Option Text → Text → Text → H PortalPage
    get_dashboard cookie path uri = when (not (path == text "/")) (return not_found) (
        require_session (λ page. page) cookie uri
          λ s. (do
            loaded ← caught load_apps_for_dashboard
            or_server_error (λ apps. (do shown ← tiles apps; return (dashboard shown))) loaded))

  abbrev pub description_in : Option Spec → Text
  description_in none = []
  description_in (some spec) = spec.description

  abbrev pub subdomain_in : Option Spec → Text
  subdomain_in none = []
  subdomain_in (some spec) = spec.subdomain

  module _ (reg : Dict Spec) (board : JobBoard) where
    abbrev pub installed_row : DbApp → State → AdminAppRow
    installed_row a state = record {
      name = a.name;
      display_name = display_name a;
      description = description_in (get a.name reg);
      subdomain = subdomain_in (get a.name reg);
      settings = a.settings;
      state = some state;
      is_installed = true;
      is_installing = has_running_job (text "install") a.name board;
    }

    unfoldable pub installed_rows : List DbApp → H (List AdminAppRow)
    installed_rows [] = return []
    installed_rows (a ∷ apps) = do
      state ← state_of a
      rest ← installed_rows apps
      return (installed_row a state ∷ rest)

    abbrev pub spec_row : Spec → AdminAppRow
    spec_row spec = record {
      name = spec.name;
      display_name = spec.display_name;
      description = spec.description;
      subdomain = spec.subdomain;
      settings = no_settings;
      state = none;
      is_installed = false;
      is_installing = has_running_job (text "install") spec.name board;
    }

    -- The apps that are not among those installed.
    unfoldable pub remaining_rows : List DbApp → List Spec → List AdminAppRow
    remaining_rows apps [] = []
    remaining_rows apps (spec ∷ specs) =
        let rest = remaining_rows apps specs in
        if any_of (λ (a : DbApp). a.name == spec.name) apps then rest else spec_row spec ∷ rest

    abbrev pub user_row : Session → User → AdminUserRow
    user_row s u = record {
      id = u.id;
      username = u.username;
      email = u.email;
      is_admin = u.is_admin;
      is_self = u.id == s.user.id;
    }

    abbrev pub view : Text → Text → Session → List AdminAppRow → List User → AdminView
    view flash error s rows users = record {
      apps = rows;
      users = map (user_row s) users;
      jobs = recent_jobs board;
      flash = flash;
      error = error;
    }

    abbrev pub admin_page : Text → Text → Session → List DbApp → H PortalPage
    admin_page flash error s apps = do
      rows ← installed_rows apps
      users ← caught (in_db list)
      or_server_error
          (λ us.
            return (administration (view flash error s (rows ++ remaining_rows apps (all reg)) us)))
          users

    unfoldable pub get_admin : Option Text → Text → Text → Text → H PortalPage
    get_admin cookie uri flash error =
        require_admin (λ page. page) cookie uri
          λ s. (do loaded ← caught load_all_apps; or_server_error (admin_page flash error s) loaded)
