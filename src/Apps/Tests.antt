-- ===== src/Apps/Tests.antt =====
-- The lifecycle of an app at concrete inputs.
use nass.Common.{
  ℕ, ◌≡◌, refl, true, false, Bool, Option, none, some, [], ◌∷◌, Text, text, text_eq, text_eq_iff,
  Dict, ltb, split, trim_space, clean, join, has_prefix,
}
use mathlib.Core.Option.{some-injective}
use nass.Db.{Db, empty_db, AppRow, decoded, no_settings}
use nass.Db.Monad.{World}
use nass.Common.{dir, up_to_slash, clean_parts, contains, trim_left, trim_right}
use nass.Db.Monad
use nass.Db.Monad.{with_tx, sql}
use nass.Host
use nass.Oidc.Clients.{cleanup_client, delete_client}
use nass.Orchestrator.{down_with_volumes, run, resolve}
use nass.Apps.Uninstall.{is_missing_compose_file, delete_app_row}
use nass.Host.{
  caught, act, when, in_db, wrapped, Host, Call, Reply, fine, broken, Failure, Outcome, done, fails,
  run_command, remove, remove_all,
}
use nass.Users.{Bcrypt}
use nass.Orchestrator.{Orchestrator}
use nass.Apps.{Spec, InstallContext, specs_of, all, sift, sift_all, text_gt}
use nass.Apps.Registry.{swap, Ascends, count, all-Ascends}
use nass.Apps.Uninstall.{UninstallContext, uninstall}
use nass.Apps.Waiting.{Waited, responds, wait_for, IsWaited, interval_or_second, wait_for-IsWaited}

abbrev wiki : Spec
wiki = record {
  name = text "wiki";
  display_name = text "Wiki";
  description = [];
  icon = [];
  subdomain = text "wiki";
  backend_port = 8080;
  preserve_host = true;
  needs_oidc = true;
  oidc_gate = false;
  oidc_redirect_uris = some (λ ic. text "https://wiki.example.org/cb" ∷ []);
  compose_template = text "port";
  pre_up = none;
  post_up = none;
}

abbrev blog : Spec
blog = record wiki { name = text "blog" }

abbrev two : Dict Spec
two = (text "wiki", wiki) ∷ (text "blog", blog) ∷ []

abbrev two_again : Dict Spec
two_again = (text "blog", blog) ∷ (text "wiki", wiki) ∷ []

code : Unit {0}
unfolding all sift sift_all text_gt text_eq
code = tt

by_name : all two ≡ blog ∷ wiki ∷ []
unfolding code
by_name = refl

differ : text_eq (text "wiki") (text "blog") ≡ false
unfolding code
differ = refl

all-Ascends_example :
    Ascends (all two)
    × (count (text "wiki") (all two) ≡ count (text "wiki") (specs_of two))
    × (all two ≡ all two_again)
all-Ascends_example = all-Ascends two two_again (text "wiki") (swap wiki blog [] differ)

-- Every call succeeds, but for those that the test says.
abbrev host : (ℕ → Call → Reply) → Db → Host
host reply db = record {
  world = record {
    db = db;
    now = 100;
    calls = 0;
    fault = λ n. false;
    drawn = 0;
    fresh = λ n. n ∷ [];
    cookies = [];
  };
  made = 0;
  calls = [];
  reply = reply;
}

abbrev always : ℕ → Call → Reply
always n c = fine []

abbrev docker : Orchestrator
docker = record { compose_root = text "/srv"; docker_compose = text "docker" ∷ text "compose" ∷ [] }

abbrev plain : Bcrypt
plain = record {
  generate = λ salt password. some password;
  accepts = λ hash password. text_eq password hash;
  accepts_own =
      λ salt password hash e. (text_eq_iff password hash).1 (some-injective password hash e);
}

abbrev given : InstallContext
given = record {
  name = [];
  subdomain = [];
  base_host = text "example.org";
  public_scheme = [];
  public_port = [];
  backend_port = 0;
  backend_port_range = [];
  backend_port_explicit = false;
  data_root = text "/data/wiki";
  compose_file = text "/srv/wiki/docker-compose.yaml";
  admin_password = [];
  oidc_client_id = [];
  oidc_client_secret = [];
  oidc_issuer = text "https://auth.example.org";
  orchestrator = some docker;
}

abbrev auth_host : Text → Option Text
auth_host url = some (text "auth.example.org")

abbrev as_is : Text → InstallContext → Option Text
as_is template ic = some template

abbrev never : ℕ → Bool
never port = false

abbrev free : ℕ → Bool
free port = ltb 9000 port

abbrev row : AppRow
row = record {
  name = text "wiki";
  enabled = 1;
  settings_json = decoded no_settings;
  enabled_at = none;
}

abbrev leaving : UninstallContext
leaving = record {
  name = text "wiki";
  compose_file = text "/srv/wiki/docker-compose.yaml";
  data_root = text "/data/wiki";
  keep_data = false;
  force = true;
  orchestrator = some docker;
}

-- Docker does not answer.
abbrev no_docker : ℕ → Call → Reply
no_docker n (run_command command args) =
    broken (record { not_exist = false; message = text "refused" }) []
no_docker n c = fine []

-- A server that answers from time 7 on, after 1.
abbrev from_7 : ℕ → ℕ × Bool
from_7 t = (1, ltb 6 t)

wait_for-IsWaited_example :
    (w : Waited) × (wait_for true from_7 30 2 0 ≡ some w)
    × IsWaited from_7 30 (interval_or_second 2) true 0 w
wait_for-IsWaited_example = wait_for-IsWaited true from_7 30 2 0

running : Unit {0}
unfolding uninstall is_missing_compose_file contains has_prefix down_with_volumes run resolve caught
    act when in_db wrapped Host.◌>>=◌ cleanup_client delete_client with_tx Monad.◌>>=◌ sql
    delete_app_row text_eq dir up_to_slash clean clean_parts split join trim_space trim_left
    trim_right
running = tt

-- With Force and no Docker, the app is gone from the table and the disk is left alone.
forced_calls :
    (uninstall leaving (host no_docker (record empty_db { apps = row ∷ [] }))).1.calls
    ≡ run_command (text "docker") (
        text "compose"
        ∷ text "-f"
        ∷ text "/srv/wiki/docker-compose.yaml"
        ∷ text "down"
        ∷ text "-v"
        ∷ text "--remove-orphans"
        ∷ [])
      ∷ []
unfolding running
forced_calls = refl

removed_in_order :
    (uninstall leaving (host always (record empty_db { apps = row ∷ [] }))).1.calls
    ≡ remove (text "/srv/wiki")
      ∷ remove (text "/srv/wiki/docker-compose.yaml")
      ∷ remove_all (text "/data/wiki")
      ∷ run_command (text "docker") (
          text "compose"
          ∷ text "-f"
          ∷ text "/srv/wiki/docker-compose.yaml"
          ∷ text "down"
          ∷ text "-v"
          ∷ text "--remove-orphans"
          ∷ [])
      ∷ []
unfolding running
removed_in_order = refl

-- Of five requests the fifth is answered.
answered_at_last : wait_for true from_7 30 2 0 ≡ some (responds 10)
unfolding wait_for
answered_at_last = refl
