-- ===== src/Portal/Actions.antt =====
-- internal/portal/admin.go: the apps that an administrator installs, starts, stops and uninstalls. A message has
-- no names where the code quotes them by %q.
pub mod Commands
pub mod Starting
mod Tests
use nass.Common.{
  ℕ, Bool, true, false, not, ◌&&◌, ◌||◌, Option, none, some, List, [], ◌∷◌, ◌++◌, Text, text,
  is_empty, leb, ◌==◌, nat_eq_test, text_eq_test, find_if, if◌then◌else◌, Dict, join_paths,
}
use nass.Sessions.{Session}
use nass.Host.{
  H, Trouble, says, within, Outcome, done, fails, return, raise, caught, wrapped, when, ◌>>=◌, ◌>>◌,
}
use nass.Orchestrator.{Orchestrator, up, down}
use nass.Apps.{Spec, InstallContext, get}
use nass.Apps.Install.{Installed}
use nass.Apps.Uninstall.{UninstallContext, AppPaths, load_app_paths}
use nass.Portal.Login.{same_origin}
use nass.Portal.Jobs.{JobBoard, start_app_job}
use nass.Portal.Dashboard.{
  DbApp, PortalPage, admin_required, cross_origin, bad_form, server_error, flashes, reports,
  reports_error, require_admin, load_all_apps, link_scheme,
}

-- The fields of a Portal that the handlers of the apps read; `none` is nil.
pub record Portal : Type 0 where
  pub orchestrator : Option Orchestrator
  pub base_host : Text
  pub https : Bool
  pub app_data_root : Text
  pub oidc_issuer : Text
  pub public_port : Text
  pub backend_port_range : Text
  pub install_app : Spec → InstallContext → H Installed
  pub uninstall_app : UninstallContext → H (Unit {0})
  pub reload : Option (H (Unit {0}))

-- What the handlers read of a request; `name` is the form's, or the one in the path.
pub record AppForm : Type 0 where
  pub origin : Text
  pub referer : Text
  pub host : Text
  pub uri : Text
  pub parsed : Bool
  pub name : Text

-- A page, or a page and a job that goes on after it.
pub data Handled : Type 0 where
  answers : PortalPage → Handled
  starts : Text → Text → H (Unit {0}) → PortalPage → Handled

-- What a request leaves on the board of jobs.
abbrev pub handled : Handled → ℕ → JobBoard → JobBoard
handled (answers page) now b = b
handled (starts action name job page) now b = start_app_job action name now b

abbrev pub is_word_byte : ℕ → Bool
is_word_byte c =
    (leb b'a' c && leb c b'z')
    || ((leb b'A' c && leb c b'Z') || ((leb b'0' c && leb c b'9') || ((c == b'_') || (c == b'-'))))

unfoldable pub all_word_bytes : Text → Bool
all_word_bytes [] = true
all_word_bytes (c ∷ s) = is_word_byte c && all_word_bytes s

-- nameRE
abbrev pub is_name : Text → Bool
is_name s = not (is_empty s) && all_word_bytes s

abbrev pub reload_with : Option (H (Unit {0})) → H (Unit {0})
reload_with none = return tt
reload_with (some run) = run

module _ (p : Portal) where
  unfoldable pub reload : H (Unit {0})
  reload = reload_with p.reload

  abbrev pub context_for : Spec → Orchestrator → InstallContext
  context_for spec o = record {
    name = spec.name;
    subdomain = spec.subdomain;
    base_host = p.base_host;
    public_scheme = link_scheme p.https;
    public_port = p.public_port;
    backend_port = spec.backend_port;
    backend_port_range = p.backend_port_range;
    backend_port_explicit = false;
    data_root = join_paths (p.app_data_root ∷ spec.name ∷ []);
    compose_file = join_paths (o.compose_root ∷ spec.name ∷ text "docker-compose.yaml" ∷ []);
    admin_password = [];
    oidc_client_id = [];
    oidc_client_secret = [];
    oidc_issuer = p.oidc_issuer;
    orchestrator = some o;
  }

  abbrev pub context_with : Spec → Option Orchestrator → Outcome InstallContext
  context_with spec none = fails (says (text "orchestrator not configured"))
  context_with spec (some o) =
      if is_empty o.compose_root
      then fails (says (text "orchestrator compose root is not configured"))
      else if is_empty p.app_data_root
      then fails (says (text "app data root is not configured"))
      else if is_empty p.oidc_issuer
      then fails (says (text "oidc issuer is not configured"))
      else done (context_for spec o)

  unfoldable pub install_context : Spec → Outcome InstallContext
  install_context spec = context_with spec p.orchestrator

  abbrev pub install_job : Spec → InstallContext → H (Unit {0})
  install_job spec ic = do
    installed ← p.install_app spec ic
    wrapped (text "installed but route reload failed") reload

  abbrev pub uninstall_job : UninstallContext → H (Unit {0})
  uninstall_job uc = do
    p.uninstall_app uc
    wrapped (text "uninstalled but route reload failed") reload

  -- The compose file of the first app of that name.
  abbrev pub file_of : Text → Option DbApp → H Text
  file_of name none = raise (says (text "app not found"))
  file_of name (some a) =
      when (is_empty a.settings.compose_file) (raise (says (text "app has no compose_file")))
        (return a.settings.compose_file)

  unfoldable pub compose_file : Text → H Text
  compose_file name = do
    apps ← load_all_apps
    file_of name (find_if (λ (a : DbApp). a.name == name) apps)

  module _ (url_host : Text → Option Text) (cookie : Option Text) (f : AppForm) where
    -- The checks that each handler begins with.
    abbrev pub guarded : H Handled → H Handled
    guarded rest = require_admin answers cookie f.uri λ s.
        when (not (same_origin url_host f.origin f.referer f.host)) (return (answers cross_origin))
          rest

    abbrev pub start_install : Spec → Outcome InstallContext → Handled
    start_install spec (fails t) = answers (reports_error [] t)
    start_install spec (done ic) =
        starts (text "install") f.name (install_job spec ic)
          (flashes (text "started installing " ++ f.name))

    abbrev pub add_app_with : Option Spec → Handled
    add_app_with none = answers (reports (text "unknown app"))
    add_app_with (some spec) = start_install spec (install_context spec)

    unfoldable pub post_add_app : Dict Spec → H Handled
    post_add_app reg = guarded (
        when (not f.parsed) (return (answers bad_form)) (
          when (not (is_name f.name))
            (return (answers (reports (text "invalid name (alnum + _ -)"))))
            (return (add_app_with (get f.name reg)))))

    abbrev pub told : Text → Text → Outcome Text → H Handled
    told did failed (fails t) = return (answers (reports_error failed t))
    told did failed (done out) = return (answers (flashes did))

    abbrev pub run_for :
        Text → Text → (Orchestrator → Text → H Text) → Text → Option Orchestrator → H Handled
    run_for did failed command path none =
        return (answers (reports (text "orchestrator not configured")))
    run_for did failed command path (some o) = do
      outcome ← caught (command o path)
      told did failed outcome

    abbrev pub run_compose : Text → Text → (Orchestrator → Text → H Text) → Outcome Text → H Handled
    run_compose did failed command (fails t) = return (answers (reports_error [] t))
    run_compose did failed command (done path) = run_for did failed command path p.orchestrator

    unfoldable pub post_start_app : H Handled
    post_start_app = guarded (do
      file ← caught (compose_file f.name)
      run_compose (text "started " ++ f.name) (text "start failed: ") up file)

    unfoldable pub post_stop_app : H Handled
    post_stop_app = guarded (do
      file ← caught (compose_file f.name)
      run_compose (text "stopped " ++ f.name) (text "stop failed: ") down file)

    abbrev pub uninstall_context : AppPaths → UninstallContext
    uninstall_context paths = record {
      name = f.name;
      compose_file = paths.compose_file;
      data_root = paths.data_root;
      keep_data = false;
      force = true;
      orchestrator = p.orchestrator;
    }

    abbrev pub start_uninstall : Outcome (Option AppPaths) → Handled
    start_uninstall (fails t) = answers (reports_error [] t)
    start_uninstall (done none) = answers (reports (text "app is not installed"))
    start_uninstall (done (some paths)) =
        starts (text "uninstall") f.name (uninstall_job (uninstall_context paths))
          (flashes (text "started uninstalling " ++ f.name))

    unfoldable pub post_uninstall_app : H Handled
    post_uninstall_app =
        guarded (do paths ← caught (load_app_paths f.name); return (start_uninstall paths))
