-- ===== src/Apps/Install.antt =====
-- internal/apps/install.go: the installation of an app. text/template and url.Parse are parameters, as are
-- bcrypt and the choice of a port, which ask the system.
pub mod Resolving
pub mod Provisioning
pub mod Writing
pub mod Preparation
use nass.Common.{
  ℕ, zero, suc, Bool, true, false, not, ◌&&◌, Option, none, some, List, [], ◌∷◌, ◌++◌, Text, text,
  is_empty, ◌==◌, nat_eq_test, text_eq_test, to_lower, dir, format_int, if◌then◌else◌,
}
use nass.Db.{AppSettings}
use nass.Db.Monad.{random_token}
use nass.Host.{
  H, Host, Call, make_dir, write_file, Trouble, says, within, return, raise, act, in_db, wrapped,
  when, ◌>>=◌, ◌>>◌,
}
use nass.Ports.{Selected, selected, refused, PortError, select_backend_port}
use nass.Orchestrator.{Orchestrator, up}
use nass.Users.{Bcrypt}
use nass.Oidc.Clients.{ProvisionResult, provision, is_no_uri}
use nass.Proxy.Manager.{save_settings}
use nass.Apps.{Spec, InstallContext}

pub record Installed : Type 0 where
  pub app_name : Text
  pub compose_file : Text
  pub admin_password : Text
  pub backend_port : ℕ
  pub oidc_client_id : Text
  pub oidc_client_secret : Text

abbrev pub or_default : Text → Text → Text
or_default [] d = d
or_default (c ∷ s) d = c ∷ s

abbrev pub nonzero_or : ℕ → ℕ → ℕ
nonzero_or zero d = d
nonzero_or (suc n) d = suc n

-- The defaults that Install takes from the spec before the port is chosen.
abbrev pub with_defaults : Spec → InstallContext → InstallContext
with_defaults spec ic = record ic {
  name = or_default ic.name spec.name;
  subdomain = or_default ic.subdomain spec.subdomain;
  backend_port = nonzero_or ic.backend_port spec.backend_port;
}

abbrev pub with_scheme : ℕ → InstallContext → InstallContext
with_scheme port ic = record ic {
  backend_port = port;
  public_scheme = or_default ic.public_scheme (text "https");
}

abbrev pub port_message : PortError → Text
port_message PortError.out_of_range = text "backend_port must be between 1 and 65535"
port_message PortError.invalid_range = text "invalid backend_port_range"
port_message PortError.in_use = text "backend port is not available"
port_message PortError.cancelled = text "context canceled"
port_message PortError.no_free_port = text "no available backend port"

abbrev pub chosen_port : Selected → H ℕ
chosen_port (selected port) = return port
chosen_port (refused e) = raise (says (port_message e))

unfoldable pub random_password : H Text
random_password = in_db random_token

abbrev pub with_password : InstallContext → H InstallContext
with_password ic =
    when (is_empty ic.admin_password)
      (do pw ← random_password; return (record ic { admin_password = pw })) (return ic)

-- strings.EqualFold, where all bytes are ASCII.
abbrev pub equal_fold : Text → Text → Bool
equal_fold s t = to_lower s == to_lower t

abbrev pub is_host : Text → Option Text → Bool
is_host host none = false
is_host host (some h) = equal_fold h host

abbrev pub settings_of : Spec → InstallContext → AppSettings
settings_of spec ic = record {
  subdomain = ic.subdomain;
  backend = text "http://127.0.0.1:" ++ format_int ic.backend_port;
  preserve_host = spec.preserve_host;
  oidc_gate = spec.oidc_gate;
  response_header_timeout_sec = 0;
  display_name = spec.display_name;
  description = spec.description;
  icon = spec.icon;
  compose_file = ic.compose_file;
  data_root = ic.data_root;
}

abbrev pub run_hook : Text → Option (InstallContext → H (Unit {0})) → InstallContext → H (Unit {0})
run_hook what none ic = return tt
run_hook what (some hook) ic = wrapped what (hook ic)

abbrev pub installed : InstallContext → Installed
installed ic = record {
  app_name = ic.name;
  compose_file = ic.compose_file;
  admin_password = ic.admin_password;
  backend_port = ic.backend_port;
  oidc_client_id = ic.oidc_client_id;
  oidc_client_secret = ic.oidc_client_secret;
}

abbrev pub up_of : Option Orchestrator → Text → H Text
up_of none compose_file = raise (says (text "orchestrator required"))
up_of (some o) compose_file = wrapped (text "compose up") (up o compose_file)

abbrev pub with_client : InstallContext → ProvisionResult → InstallContext
with_client ic r = record ic { oidc_client_id = r.client_id; oidc_client_secret = r.client_secret }

module _ (url_hostname : Text → Option Text) where
  -- The subdomain is the host of the sign-in server.
  abbrev pub is_sign_in_host : InstallContext → Bool
  is_sign_in_host ic =
      not (is_empty ic.oidc_issuer)
      && is_host (ic.subdomain ++ b'.' ∷ ic.base_host) (url_hostname ic.oidc_issuer)

  abbrev pub no_orchestrator : Option Orchestrator → Bool
  no_orchestrator none = true
  no_orchestrator (some o) = false

  -- The message of the first check that fails.
  unfoldable pub validate : InstallContext → Option Text
  validate ic =
      if is_empty ic.name
      then some (text "name required")
      else if is_empty ic.subdomain
      then some (text "subdomain required")
      else if ic.backend_port == 0
      then some (text "backend_port required")
      else if is_empty ic.base_host
      then some (text "base_host required")
      else if is_sign_in_host ic
      then some (text "subdomain is used by the nass sign-in server")
      else if is_empty ic.compose_file
      then some (text "compose_file required")
      else if is_empty ic.data_root
      then some (text "data_root required")
      else if no_orchestrator ic.orchestrator
      then some (text "orchestrator required")
      else none

  abbrev pub pass : Option Text → H (Unit {0})
  pass none = return tt
  pass (some message) = raise (says message)

  module _ (bcrypt : Bcrypt) where
    abbrev pub provision_for : InstallContext → List Text → H InstallContext
    provision_for ic redirects =
        when (is_no_uri redirects) (raise (says (text "OIDCRedirectURIs returned no entries"))) (do
          r ← wrapped (text "provision OIDC client") (in_db (provision bcrypt ic.name redirects))
          return (with_client ic r))

    abbrev pub provision_with :
        InstallContext → Option (InstallContext → List Text) → H InstallContext
    provision_with ic none = raise (says (text "NeedsOIDC=true but OIDCRedirectURIs is nil"))
    provision_with ic (some uris) = provision_for ic (uris ic)

    abbrev pub provision_client : Spec → InstallContext → H InstallContext
    provision_client spec ic =
        when spec.needs_oidc (provision_with ic spec.oidc_redirect_uris) (return ic)

    module _ (render : Text → InstallContext → Option Text)
        (is_done port_available : ℕ → Bool) where
      abbrev pub written : InstallContext → Option Text → H Text
      written ic none = raise (says (text "render compose template"))
      written ic (some contents) =
          wrapped (text "write compose file") (act (write_file ic.compose_file contents))

      unfoldable pub render_compose : Spec → InstallContext → H Text
      render_compose spec ic = written ic (render spec.compose_template ic)

      -- The defaults, the port, the password and the checks.
      unfoldable pub resolve_context : Spec → InstallContext → H InstallContext
      resolve_context spec ic = do
        let ic' = with_defaults spec ic
        port ← chosen_port (
            select_backend_port is_done port_available ic'.backend_port ic'.backend_port_range
              ic'.backend_port_explicit)
        full ← with_password (with_scheme port ic')
        pass (validate full)
        return full

      -- The steps 2 and 3: the files, and the settings.
      unfoldable pub write_app : Spec → InstallContext → H (Unit {0})
      write_app spec ic = do
        parent ← wrapped (text "mkdir compose dir") (act (make_dir (dir ic.compose_file)))
        rendered ← render_compose spec ic
        data_dir ← wrapped (text "mkdir data root") (act (make_dir ic.data_root))
        wrapped (text "save app settings") (in_db (save_settings ic.name (settings_of spec ic)))

      -- Step 4.
      unfoldable pub launch : Spec → InstallContext → H (Unit {0})
      launch spec ic = do
        run_hook (text "pre-up") spec.pre_up ic
        out ← up_of ic.orchestrator ic.compose_file
        run_hook (text "post-up") spec.post_up ic

      unfoldable pub install : Spec → InstallContext → H Installed
      install spec given = do
        resolved ← resolve_context spec given
        ic ← provision_client spec resolved
        write_app spec ic
        launch spec ic
        return (installed ic)
