-- ===== src/Cli/Tests.antt =====
-- The commands at concrete arguments.
use nass.Common.{
  ◌≡◌, refl, true, false, none, [], ◌∷◌, text, text_eq, join_paths, clean, clean_parts, split, join,
  has_prefix, to_lower,
}
use nass.Db.{empty_db, AppRow, decoded, no_settings}
use nass.Db.Monad.{sql, exec}
use nass.Db.Monad
use nass.Host.{Host, broken, stat, fails, says, ◌>>=◌, when, act, caught, in_db}
use nass.Host.Meets.{Comes}
use nass.Config.{Config, default_config}
use nass.Apps.Uninstall.{load_app_paths}
use nass.Cli.{UninstallFlags, resolve_uninstall_paths, uninstall_app, enable_app}
use nass.Cli.Uninstalling.{IsDone, IsAborted, uninstall_app-Comes}

-- A route that was enabled by hand: it has no files.
abbrev by_hand : AppRow
by_hand = record {
  name = text "wiki";
  enabled = 1;
  settings_json = decoded no_settings;
  enabled_at = none;
}

abbrev home : Host
home = record {
  world = record {
    db = record empty_db { apps = by_hand ∷ [] };
    now = 100;
    calls = 0;
    fault = λ n. false;
    drawn = 0;
    fresh = λ n. n ∷ [];
    cookies = [];
  };
  made = 0;
  calls = [];
  reply =
      λ n c. broken (record { not_exist = true; message = text "no such file or directory" }) [];
}

abbrev cfg : Config
cfg = record default_config {
  server = record default_config.server { base_host = text "example.org" };
  orchestrator = record default_config.orchestrator {
    compose_root = text "/srv";
    data_root = text "/data";
  };
}

abbrev unsure : UninstallFlags
unsure = record { yes = false; keep_data = false; force = false }

uninstall_app-Comes_example :
    Comes home
      (uninstall_app cfg (text "wiki") unsure)
      (λ u h. IsDone cfg (text "wiki") unsure home h)
      (λ t h. IsAborted cfg (text "wiki") unsure home h)
uninstall_app-Comes_example = uninstall_app-Comes cfg (text "wiki") unsure home

code : Unit {0}
unfolding uninstall_app load_app_paths resolve_uninstall_paths ◌>>=◌ Monad.◌>>=◌ when act caught
    in_db sql text_eq join_paths clean clean_parts split join has_prefix enable_app to_lower
code = tt

looks_first :
    (uninstall_app cfg (text "wiki") unsure home).1.calls
    ≡ stat (text "/srv/wiki/docker-compose.yaml") ∷ []
unfolding code
looks_first = refl

auth_is_reserved :
    (enable_app cfg
      (text "evil")
      (record {
        subdomain = text "AUTH";
        backend = text "http://127.0.0.1:1";
        preserve_host = true;
        oidc_gate = false;
        response_header_timeout_sec = 0;
      })
      home).0
    ≡ fails (says (text "subdomain is reserved"))
unfolding code
auth_is_reserved = refl
