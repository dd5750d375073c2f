-- ===== src/Cli.antt =====
-- internal/cli: the hosts that serve.go gives to the parts, the commands of app.go and install.go on apps. Flags
-- and arguments are parameters; what is printed is left out.
pub mod Uninstalling
mod Tests
use nass.Common.{
  ℕ, Bool, true, false, not, ◌&&◌, ◌||◌, Option, none, some, List, [], ◌∷◌, ◌++◌, Text, text,
  is_empty, to_lower, ◌==◌, nat_eq_test, text_eq_test, any_of, if◌then◌else◌, join_paths, Dict,
}
use nass.Db.{Db, AppRow, AppSettings}
use nass.Db.Rows.{update_where}
use nass.Db.Monad.{M, Result, ok, pure, sql, branch}
use nass.Db.Monad
use nass.Proxy.Manager.{save_settings, host_of}
use nass.Host.{
  H, stat, Trouble, says, within, Outcome, done, fails, return, raise, act, in_db, caught, when,
  ◌>>=◌, ◌>>◌,
}
use nass.Orchestrator.{Orchestrator, new_orchestrator}
use nass.Apps.{Spec, InstallContext, get}
use nass.Apps.Install.{Installed}
use nass.Apps.Uninstall.{UninstallContext, AppPaths, load_app_paths, uninstall}
use nass.Config.{Config}

abbrev pub auth_host : Config → Text
auth_host cfg =
    if is_empty cfg.oidc.subdomain
    then cfg.server.base_host
    else cfg.oidc.subdomain ++ b'.' ∷ cfg.server.base_host

abbrev pub portal_host : Config → Text
portal_host cfg =
    if is_empty cfg.portal.subdomain
    then cfg.server.base_host
    else cfg.portal.subdomain ++ b'.' ∷ cfg.server.base_host

unfoldable pub portal_host_url : Config → Bool → Text
portal_host_url cfg dev_mode =
    (if dev_mode then text "http" else text "https") ++ (text "://" ++ portal_host cfg)

-- The flags of `app enable`.
pub record EnableFlags : Type 0 where
  pub subdomain : Text
  pub backend : Text
  pub preserve_host : Bool
  pub oidc_gate : Bool
  pub response_header_timeout_sec : ℕ

abbrev pub enabled_settings : EnableFlags → AppSettings
enabled_settings f = record {
  subdomain = f.subdomain;
  backend = f.backend;
  preserve_host = f.preserve_host;
  oidc_gate = f.oidc_gate;
  response_header_timeout_sec = f.response_header_timeout_sec;
  display_name = [];
  description = [];
  icon = [];
  compose_file = [];
  data_root = [];
}

-- The loop over the hosts that nass serves itself.
abbrev pub is_nass_host : Config → Text → Bool
is_nass_host cfg host =
    any_of (λ reserved. host == to_lower reserved) (auth_host cfg ∷ portal_host cfg ∷ [])

unfoldable pub enable_app : Config → Text → EnableFlags → H (Unit {0})
enable_app cfg name f =
    when (is_empty f.subdomain || is_empty f.backend)
      (raise (says (text "--subdomain and --backend are required")))
      (when (is_nass_host cfg (host_of cfg.server.base_host f.subdomain))
        (raise (says (text "subdomain is reserved")))
        (in_db (save_settings name (enabled_settings f))))

abbrev pub disable_row : Text → Db → Db
disable_row name db = record db {
  apps = update_where (λ a. a.name == name) (λ (a : AppRow). record a { enabled = 0 }) db.apps;
}

unfoldable pub disable_app : Text → H (Unit {0})
disable_app name = do
  found ← in_db (sql (λ db. ok (any_of (λ a. a.name == name) db.apps, disable_row name db)))
  when found (return tt) (raise (says (text "app not found")))

-- The flags of `app install`; 0 and an empty text are those that are not given.
pub record InstallFlags : Type 0 where
  pub subdomain : Text
  pub data_root : Text
  pub compose_file : Text
  pub admin_password : Text
  pub public_port : Text
  pub backend_port : ℕ

abbrev pub or_default : Text → Text → Text
or_default given default = if is_empty given then default else given

abbrev pub context_for : Config → Spec → InstallFlags → InstallContext
context_for cfg spec f = record {
  name = spec.name;
  subdomain = or_default f.subdomain spec.subdomain;
  base_host = cfg.server.base_host;
  public_scheme = text "https";
  public_port = f.public_port;
  backend_port = if not (f.backend_port == 0) then f.backend_port else spec.backend_port;
  backend_port_range = cfg.orchestrator.backend_port_range;
  backend_port_explicit = not (f.backend_port == 0);
  data_root = or_default f.data_root (join_paths (cfg.orchestrator.data_root ∷ spec.name ∷ []));
  compose_file =
      or_default f.compose_file
        (join_paths (cfg.orchestrator.compose_root ∷ spec.name ∷ text "docker-compose.yaml" ∷ []));
  admin_password = f.admin_password;
  oidc_client_id = [];
  oidc_client_secret = [];
  oidc_issuer = cfg.oidc.issuer;
  orchestrator =
      some (new_orchestrator cfg.orchestrator.compose_root cfg.orchestrator.docker_compose);
}

unfoldable pub build_install_context : Config → Spec → InstallFlags → Outcome InstallContext
build_install_context cfg spec f =
    if is_empty cfg.server.base_host
    then fails (says (text "server.base_host is empty in nass.toml"))
    else if is_empty cfg.orchestrator.compose_root
    then fails (says (text "orchestrator.compose_root is empty in nass.toml"))
    else if is_empty cfg.orchestrator.data_root
    then fails (says (text "orchestrator.data_root is empty in nass.toml"))
    else if is_empty cfg.oidc.issuer
    then fails (says (text "oidc.issuer is unset (set base_host so the issuer can be derived)"))
    else done (context_for cfg spec f)

-- The flags of `app uninstall`.
pub record UninstallFlags : Type 0 where
  pub yes : Bool
  pub keep_data : Bool
  pub force : Bool

abbrev pub exists_with : Text → Text → Outcome Text → Text
exists_with candidate compose_file (done found) = candidate
exists_with candidate compose_file (fails t) = compose_file

abbrev pub compose_or_candidate : Config → Text → Text → H Text
compose_or_candidate cfg name compose_file =
    when (is_empty compose_file && not (is_empty cfg.orchestrator.compose_root))
      (do
        let candidate =
            join_paths (cfg.orchestrator.compose_root ∷ name ∷ text "docker-compose.yaml" ∷ [])
        found ← caught (act (stat candidate))
        return (exists_with candidate compose_file found))
      (return compose_file)

abbrev pub data_or_default : Config → Text → Text → Text → Text
data_or_default cfg name compose_file data_root =
    if is_empty data_root
      && (not (is_empty compose_file) && not (is_empty cfg.orchestrator.data_root))
    then join_paths (cfg.orchestrator.data_root ∷ name ∷ [])
    else data_root

unfoldable pub resolve_uninstall_paths : Config → Text → AppPaths → H AppPaths
resolve_uninstall_paths cfg name paths = do
  compose_file ← compose_or_candidate cfg name paths.compose_file
  return (record {
    compose_file = compose_file;
    data_root = data_or_default cfg name compose_file paths.data_root;
  })

abbrev pub uninstall_context : Config → Text → UninstallFlags → AppPaths → UninstallContext
uninstall_context cfg name f paths = record {
  name = name;
  compose_file = paths.compose_file;
  data_root = paths.data_root;
  keep_data = f.keep_data;
  force = f.force;
  orchestrator =
      some (new_orchestrator cfg.orchestrator.compose_root cfg.orchestrator.docker_compose);
}

abbrev pub uninstall_found : Config → Text → UninstallFlags → Option AppPaths → H (Unit {0})
uninstall_found cfg name f none = raise (says (text "app is not installed"))
uninstall_found cfg name f (some recorded) = do
  paths ← resolve_uninstall_paths cfg name recorded
  when (not f.yes) (raise (says (text "aborted: pass --yes to confirm")))
      (uninstall (uninstall_context cfg name f paths))

unfoldable pub uninstall_app : Config → Text → UninstallFlags → H (Unit {0})
uninstall_app cfg name f = do found ← load_app_paths name; uninstall_found cfg name f found
