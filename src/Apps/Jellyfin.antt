-- ===== src/Apps/Jellyfin.antt =====
-- internal/apps/jellyfin: what is done to the app once it runs. net/http, archive/zip, encoding/json and
-- text/template are parameters: how a response reads, what a file of the archive is, and what a template
-- gives. The name of an error's place is left out of a message where %q or a status quotes it.
pub mod Extraction
mod Tests
use nass.Common.{
  ℕ, zero, suc, Bool, true, false, not, ◌&&◌, ◌||◌, Option, none, some, List, [], ◌∷◌, ◌++◌, Text,
  text, is_empty, leb, ◌==◌, nat_eq_test, text_eq_test, if◌then◌else◌, has_prefix, trim_space,
  fields, dir, join_path, join_paths, abs_path, format_int,
}
use nass.Host.{
  H, Call, make_dir, write_file, stat, request, run_command, Trouble, says, within, Outcome, done,
  fails, return, raise, act, caught, wrapped, when, ◌>>=◌, ◌>>◌,
}
use nass.Orchestrator.{Orchestrator, restart}
use nass.Apps.{InstallContext, public_host, oidc_discovery_url}
use nass.Apps.Uninstall.{is_not_exist}

pub record Response : Type 0 where
  pub status : ℕ
  pub content_type : Text
  pub body : Text

-- A file of an archive; `contents` is `none` where it cannot be opened.
pub record ZipEntry : Type 0 where
  pub name : Text
  pub is_dir : Bool
  pub contents : Option Text

abbrev pub plugin_manifest_url : Text
plugin_manifest_url =
    text "https://raw.githubusercontent.com/9p4/jellyfin-plugin-sso/manifest-release/manifest.json"

abbrev pub sso_provider_name : Text
sso_provider_name = text "nass"

unfoldable pub redirect_uris : InstallContext → List Text
redirect_uris ic =
    let path = text "/sso/OID/redirect/" ++ sso_provider_name in
    (text "https://" ++ (public_host ic ++ path))
    ∷ (text "http://" ++ (public_host ic ++ path))
    ∷ []

module _ (response : Text → Response) where
  abbrev pub ok_body : Text → H (Unit {0})
  ok_body reply =
      let r = response reply in
      when (leb 400 r.status)
        (raise (says (text "status " ++ (format_int r.status ++ (text ": " ++ trim_space r.body)))))
        (return tt)

  unfoldable pub get_json : Text → H (Unit {0})
  get_json url = do reply ← act (request (text "GET") url []); ok_body reply

  unfoldable pub post_json : Text → Text → H (Unit {0})
  post_json url body = do reply ← act (request (text "POST") url body); ok_body reply

  abbrev pub body_of : Response → H Text
  body_of r =
      when (leb 400 r.status) (raise (says (text "GET: status " ++ format_int r.status)))
        (return r.body)

  unfoldable pub fetch : Text → H Text
  fetch url = do reply ← act (request (text "GET") url []); body_of (response reply)

  abbrev pub is_json : Response → Bool
  is_json r = r.status == 200 && has_prefix r.content_type (text "application/json")

  abbrev pub ready_with : Outcome Text → Bool
  ready_with (fails t) = false
  ready_with (done reply) = is_json (response reply)

  unfoldable pub startup_ready : Text → H Bool
  startup_ready base = do
    reply ← caught (act (request (text "GET") (base ++ text "/Startup/User") []))
    return (ready_with reply)

  -- `decode_completed` is StartupWizardCompleted of a JSON object.
  module _ (decode_completed : Text → Option Bool) where
    abbrev pub info_of : Response → Option Bool
    info_of r = if is_json r then decode_completed r.body else none

    abbrev pub info_with : Outcome Text → Option Bool
    info_with (fails t) = none
    info_with (done reply) = info_of (response reply)

    -- `some completed`, where the code has `completed, true`.
    unfoldable pub poll_public_info : Text → H (Option Bool)
    poll_public_info base = do
      reply ← caught (act (request (text "GET") (base ++ text "/System/Info/Public") []))
      return (info_with reply)

    abbrev pub if_ready : Text → Option Bool → H (Option Bool)
    if_ready base none = return none
    if_ready base (some true) = return (some true)
    if_ready base (some false) = do
      ready ← startup_ready base
      return (if ready then some false else none)

    abbrev pub or_again : H Bool → Option Bool → H Bool
    or_again next none = next
    or_again next (some completed) = return completed

    -- The context is done after `rounds` rounds.
    unfoldable pub wait_for_jellyfin : ℕ → Text → H Bool
    wait_for_jellyfin zero base = raise (says (text "context deadline exceeded"))
    wait_for_jellyfin (suc rounds) base =
        let next = wait_for_jellyfin rounds base in
        (do info ← poll_public_info base; completed ← if_ready base info; or_again next completed)

  -- `marshal` encodes a map of texts.
  unfoldable pub run_startup_wizard : (List (Text × Text) → Text) → Text → Text → H (Unit {0})
  run_startup_wizard marshal base admin_password = do
    wrapped (text "GET /Startup/User") (get_json (base ++ text "/Startup/User"))
    wrapped (text "POST /Startup/User") (
        post_json (base ++ text "/Startup/User")
          (marshal ((text "Name", text "admin") ∷ (text "Password", admin_password) ∷ [])))
    wrapped (text "POST /Startup/Configuration") (
        post_json (base ++ text "/Startup/Configuration") (
          text
            "{\"UICulture\":\"en-US\",\"MetadataCountryCode\":\"US\",\"PreferredMetadataLanguage\":\"en\"}"))
    wrapped (text "POST /Startup/RemoteAccess") (
        post_json (base ++ text "/Startup/RemoteAccess")
          (text "{\"EnableRemoteAccess\":true,\"EnableAutomaticPortMapping\":false}"))
    wrapped (text "POST /Startup/Complete") (post_json (base ++ text "/Startup/Complete") [])

  -- The versions of each plugin of a manifest, each by its sourceUrl.
  module _ (manifest : Text → Option (List (List Text))) where
    abbrev pub first_url : Option (List (List Text)) → H Text
    first_url none = raise (says (text "parse manifest"))
    first_url (some ((url ∷ urls) ∷ plugins)) = return url
    first_url (some ([] ∷ plugins)) = raise (says (text "manifest has no versions"))
    first_url (some []) = raise (says (text "manifest has no versions"))

    unfoldable pub latest_plugin_url : H Text
    latest_plugin_url = do body ← fetch plugin_manifest_url; first_url (manifest body)

-- Whether an entry is at or below the destination.
abbrev pub is_below : Text → Text → Bool
is_below dest out = has_prefix out (dest ++ b'/' ∷ []) || out == dest

abbrev pub opened : Option Text → Text → H (Unit {0})
opened none out = raise (says (text "zip: cannot open the entry"))
opened (some contents) out = do written ← act (write_file out contents); return tt

abbrev pub unzip_entry : Text → ZipEntry → H (Unit {0})
unzip_entry dest f =
    let out = join_path dest f.name in
    when (not (is_below dest out)) (raise (says (text "zip entry escapes dest"))) (
      when f.is_dir (do made ← act (make_dir out); return tt)
        (do made ← act (make_dir (dir out)); opened f.contents out))

unfoldable pub unzip_entries : Text → List ZipEntry → H (Unit {0})
unzip_entries dest [] = return tt
unzip_entries dest (f ∷ files) = do unzip_entry dest f; unzip_entries dest files

module _ (working_dir : Option Text) (zip_files : Text → Option (List ZipEntry)) where
  abbrev pub unzip_with : Option (List ZipEntry) → Option Text → H (Unit {0})
  unzip_with none dest = raise (says (text "zip: not a valid zip file"))
  unzip_with (some files) none = raise (says (text "getwd"))
  unzip_with (some files) (some dest) = unzip_entries dest files

  unfoldable pub unzip_into : Text → Text → H (Unit {0})
  unzip_into zip_bytes dest = unzip_with (zip_files zip_bytes) (abs_path working_dir dest)

  module _ (response : Text → Response) (manifest : Text → Option (List (List Text))) where
    unfoldable pub install_sso_plugin : Text → H (Unit {0})
    install_sso_plugin plugin_dir = do
      zip_url ← wrapped (text "resolve plugin url") (latest_plugin_url response manifest)
      zip_bytes ← wrapped (text "download plugin") (fetch response zip_url)
      made ← wrapped (text "mkdir plugin dir") (act (make_dir plugin_dir))
      wrapped (text "unzip plugin") (unzip_into zip_bytes plugin_dir)

-- `is_ip` is net.ParseIP with a result that is not nil.
module _ (is_ip : Text → Bool) where
  abbrev pub ips_in : List Text → List Text
  ips_in [] = []
  ips_in (f ∷ rest) = if is_ip f then f ∷ ips_in rest else ips_in rest

  abbrev pub some_ips : List Text → H (List Text)
  some_ips [] = raise (says (text "docker inspect: no gateway IPs found"))
  some_ips (ip ∷ ips) = return (ip ∷ ips)

  unfoldable pub discover_proxy_ips : Text → H (List Text)
  discover_proxy_ips container = do
    out ← wrapped (text "docker inspect") (
        act (
          run_command (text "docker") (
            text "inspect"
            ∷ text "--format"
            ∷ text "{{range $name, $cfg := .NetworkSettings.Networks}}{{$cfg.Gateway}} {{end}}"
            ∷ container
            ∷ [])))
    some_ips (ips_in (fields out))

  abbrev pub rendered : Option Text → H Text
  rendered none = raise (says (text "template"))
  rendered (some body) = return body

  -- The templates of network.xml and SSO-Auth.xml: the gateways; the provider's name, the discovery URL,
  -- the client and its secret.
  module _ (branding_xml : Text) (network_xml : List Text → Option Text)
      (sso_auth : Text → Text → Text → Text → Option Text) where
    unfoldable pub render_network_xml : List Text → H Text
    render_network_xml gateways = rendered (network_xml gateways)

    unfoldable pub render_sso_config : InstallContext → H Text
    render_sso_config ic =
        rendered (
          sso_auth sso_provider_name (oidc_discovery_url ic) ic.oidc_client_id
            ic.oidc_client_secret)

    unfoldable pub write_branding_and_sso_config : InstallContext → H (Unit {0})
    write_branding_and_sso_config ic = do
      let branding_dir = join_paths (ic.data_root ∷ text "config" ∷ text "config" ∷ [])
      let configs_dir =
          join_paths (ic.data_root ∷ text "config" ∷ text "plugins" ∷ text "configurations" ∷ [])
      a ← wrapped (text "mkdir branding dir") (act (make_dir branding_dir))
      b ←
          wrapped (text "write branding.xml")
            (act (write_file (join_path branding_dir (text "branding.xml")) branding_xml))
      gateways ← wrapped (text "discover docker gateway") (discover_proxy_ips ic.name)
      netxml ← wrapped (text "render network.xml") (render_network_xml gateways)
      c ←
          wrapped (text "write network.xml")
            (act (write_file (join_path branding_dir (text "network.xml")) netxml))
      d ← wrapped (text "mkdir plugin configs dir") (act (make_dir configs_dir))
      xml ← wrapped (text "render SSO-Auth.xml") (render_sso_config ic)
      e ←
          wrapped (text "write SSO-Auth.xml")
            (act (write_file (join_path configs_dir (text "SSO-Auth.xml")) xml))
      return tt

    module _ (response : Text → Response) (decode_completed : Text → Option Bool)
        (marshal : List (Text × Text) → Text) (manifest : Text → Option (List (List Text)))
        (working_dir : Option Text) (zip_files : Text → Option (List ZipEntry)) where
      abbrev pub wizard_unless : Bool → Text → InstallContext → H (Unit {0})
      wizard_unless completed base ic =
          when (not completed)
            (wrapped (text "startup wizard")
              (run_startup_wizard response marshal base ic.admin_password))
            (return tt)

      abbrev pub plugin_with : Text → Outcome Text → H (Unit {0})
      plugin_with plugin_dir (done found) = return tt
      plugin_with plugin_dir (fails t) =
          when (not (is_not_exist t)) (raise (within (text "stat plugin dir") t)) (
            wrapped (text "install SSO plugin")
              (install_sso_plugin working_dir zip_files response manifest plugin_dir))

      -- The orchestrator of the context, which is not nil here, and the rounds that the two waits have.
      unfoldable pub post_up : Orchestrator → ℕ → ℕ → InstallContext → H (Unit {0})
      post_up o rounds restarted ic = do
        let base = text "http://127.0.0.1:" ++ format_int ic.backend_port
        completed ←
            wrapped (text "wait for jellyfin")
              (wait_for_jellyfin response decode_completed rounds base)
        wizard_unless completed base ic
        let plugin_dir =
            join_paths
              (ic.data_root ∷ text "config" ∷ text "plugins" ∷ text "SSO_Authentication" ∷ [])
        found ← caught (act (stat plugin_dir))
        plugin_with plugin_dir found
        write_branding_and_sso_config ic
        out ← wrapped (text "restart jellyfin") (restart o ic.compose_file)
        again ←
            wrapped (text "wait for jellyfin restart")
              (wait_for_jellyfin response decode_completed restarted base)
        return tt
