-- ===== src/Proxy/Manager/Tests.antt =====
-- Sync at a concrete table.
use nass.Common.{◌≡◌, refl, true, false, Option, none, some, [], ◌∷◌, Text, text, text_eq}
use nass.Db.{Db, AppRow, decoded, no_settings, empty_db}
use nass.Db.Monad.{World, ok, ◌>>=◌, sql}
use nass.Common.{lookup, insert, delete, to_lower}
use nass.Proxy.{Url, other, not_found, add_route, remove_route}
use nass.Proxy.Manager.{
  RouteManager, host_reserved, host_used, sync, load_enabled, install, claim_all, handler_for,
  resolve_rows, order_by_name, insert_by_name, text_le, add_all, drop_unclaimed, is_reserved,
}
use nass.Proxy.Manager.Sync.{
  IsSound, claims_on, route_after, lookup-sync, reserved-sync, sync-IsSound,
}

abbrev app_at : Text → Text → AppRow
app_at name subdomain = record {
  name = name;
  enabled = 1;
  settings_json =
      decoded
        (record no_settings { subdomain = subdomain; backend = text "http://127.0.0.1:20000" });
  enabled_at = none;
}

-- Two apps want one host, and one wants that of the sign-in server.
abbrev table : Db
table = record empty_db {
  apps =
      app_at (text "wiki") (text "Wiki")
      ∷ app_at (text "evil") (text "auth")
      ∷ app_at (text "copy") (text "wiki")
      ∷ [];
}

abbrev home : World
home = record {
  db = table;
  now = 100;
  calls = 0;
  fault = λ n. false;
  drawn = 0;
  fresh = λ n. n ∷ [];
  cookies = [];
}

abbrev any_url : Text → Option Url
any_url s = some (record { scheme = text "http"; host = s })

abbrev sign_in_host : Text
sign_in_host = text "auth.example.org"

abbrev old_host : Text
old_host = text "old.example.org"

abbrev manager : RouteManager
manager = record {
  base_host = text "example.org";
  server = record {
    routes = (sign_in_host, other (text "oidc")) ∷ (old_host, other (text "gone")) ∷ [];
    fallback = not_found;
  };
  has_gate = true;
  app_hosts = (text "old", old_host) ∷ [];
  reserved = sign_in_host ∷ [];
}

code : Unit {0}
unfolding sync load_enabled install claim_all handler_for resolve_rows order_by_name insert_by_name
    text_le to_lower lookup insert delete text_eq add_all add_route drop_unclaimed remove_route sql
    ◌>>=◌
code = tt

abbrev after : RouteManager
after = install (claims_on any_url manager table) manager

problems_found :
    (claims_on any_url manager table).problems
    ≡ host_reserved (text "evil") sign_in_host
      ∷ host_used (text "wiki") (text "wiki.example.org") (text "copy")
      ∷ []
unfolding code
problems_found = refl

syncs :
    sync any_url manager home
    ≡ (ok (after, (claims_on any_url manager table).problems), record home { calls = 1 })
unfolding code
syncs = refl

manager-IsSound : IsSound manager
unfolding code
manager-IsSound = ((refl, refl), tt)

lookup-sync_example :
    lookup old_host after.server.routes ≡ route_after any_url manager table old_host
lookup-sync_example =
    lookup-sync any_url manager after (claims_on any_url manager table).problems home
      (record home { calls = 1 }) old_host manager-IsSound syncs

old_route_gone : lookup old_host after.server.routes ≡ none
unfolding code
old_route_gone = refl

is_reserved_host : is_reserved manager sign_in_host ≡ true
unfolding code
is_reserved_host = refl

reserved-sync_example :
    lookup sign_in_host after.server.routes ≡ lookup sign_in_host manager.server.routes
reserved-sync_example =
    reserved-sync any_url manager after (claims_on any_url manager table).problems home
      (record home { calls = 1 }) sign_in_host manager-IsSound is_reserved_host syncs

sync-IsSound_example : IsSound after
sync-IsSound_example =
    sync-IsSound any_url manager after (claims_on any_url manager table).problems home
      (record home { calls = 1 }) syncs
