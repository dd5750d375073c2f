-- ===== src/Portal/Actions/Tests.antt =====
-- The handlers of the apps at concrete requests.
use nass.Common.{
  has_prefix, ◌≡◌, refl, true, false, Option, none, some, [], ◌∷◌, Text, text, text_eq,
}
use nass.Db.{empty_db, AppRow, decoded, no_settings}
use nass.Db.Monad.{sql}
use nass.Users.{new_row}
use nass.Users
use nass.Db.Monad
use nass.Sessions.{new_session, find}
use nass.Host.{Host, fine, run_command, done, says, raise, return, ◌>>=◌, caught, in_db, when}
use nass.Orchestrator.{up, run, resolve}
use nass.Apps.{Spec}
use nass.Proxy.Manager.{order_by_name, insert_by_name}
use nass.Portal.Dashboard.{
  apps_of, load_apps, load_all_apps, require_session, require_admin, flashes, admin_required,
}
use nass.Portal.Actions.{Portal, AppForm, answers, compose_file, post_start_app}

abbrev wiki_row : AppRow
wiki_row = record {
  name = text "wiki";
  enabled = 1;
  settings_json =
      decoded (record no_settings { compose_file = text "/srv/wiki/docker-compose.yaml" });
  enabled_at = none;
}

-- `ada` is an administrator, `bob` is not; both are signed in.
abbrev home : Host
home = record {
  world = record {
    db = record empty_db {
      users =
          new_row 1 10 (text "ada") none (text "h") 1
          ∷ new_row 2 20 (text "bob") none (text "h") 0
          ∷ [];
      next_user_id = 3;
      apps = wiki_row ∷ [];
      portal_sessions = new_session (text "a") 1 500 ∷ new_session (text "b") 2 500 ∷ [];
    };
    now = 100;
    calls = 0;
    fault = λ n. false;
    drawn = 0;
    fresh = λ n. n ∷ [];
    cookies = [];
  };
  made = 0;
  calls = [];
  reply = λ n c. fine [];
}

abbrev portal : Portal
portal = record {
  orchestrator =
      some (record {
        compose_root = text "/srv";
        docker_compose = text "docker" ∷ text "compose" ∷ [];
      });
  base_host = text "example.org";
  https = true;
  app_data_root = text "/data";
  oidc_issuer = text "https://auth.example.org";
  public_port = [];
  backend_port_range = [];
  install_app = λ spec ic. raise (says (text "no network"));
  uninstall_app = λ uc. return tt;
  reload = none;
}

abbrev for_wiki : AppForm
for_wiki = record {
  origin = [];
  referer = [];
  host = text "example.org";
  uri = text "/portal/admin/apps/wiki/start";
  parsed = true;
  name = text "wiki";
}

abbrev no_host : Text → Option Text
no_host s = none

abbrev wiki : Spec
wiki = record {
  name = text "wiki";
  display_name = text "Wiki";
  description = [];
  icon = [];
  subdomain = text "wiki";
  backend_port = 8080;
  preserve_host = true;
  needs_oidc = false;
  oidc_gate = false;
  oidc_redirect_uris = none;
  compose_template = [];
  pre_up = none;
  post_up = none;
}

code : Unit {0}
unfolding post_start_app require_admin require_session find sql text_eq compose_file load_all_apps
    load_apps apps_of order_by_name insert_by_name up run resolve caught in_db when ◌>>=◌
    Monad.◌>>=◌ Users.get has_prefix
code = tt

starts_wiki :
    (post_start_app portal no_host (some (text "a")) for_wiki home).0
    ≡ done (answers (flashes (text "started wiki")))
unfolding code
starts_wiki = refl

runs_up :
    (post_start_app portal no_host (some (text "a")) for_wiki home).1.calls
    ≡ run_command (text "docker") (
        text "compose"
        ∷ text "-f"
        ∷ text "/srv/wiki/docker-compose.yaml"
        ∷ text "up"
        ∷ text "-d"
        ∷ [])
      ∷ []
unfolding code
runs_up = refl

not_for_bob :
    (post_start_app portal no_host (some (text "b")) for_wiki home).0
    ≡ done (answers admin_required)
unfolding code
not_for_bob = refl
