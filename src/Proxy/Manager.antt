-- ===== src/Proxy/Manager.antt =====
-- internal/proxy/apps.go and internal/proxy/manager.go: the routes of the apps, kept in step with the
-- table of apps.
pub mod Claiming
pub mod Sync
mod Tests
use nass.Common.{
  ℕ, zero, suc, ◌+◌, ◌≡◌, Bool, true, false, not, ◌&&◌, ◌||◌, ◌⊎◌, inl, inr, Option, none, some,
  List, [], ◌∷◌, ◌++◌, map, Text, text, ltb, ◌==◌, is_empty, text_eq_test, nat_eq_test, any_of,
  keep_if, if◌then◌else◌, Dict, lookup, insert, delete, keys, to_lower, is_some, or_else, get_or,
}
use mathlib.Core.Option
use nass.Db.{no_settings, Db, AppRow, AppSettings, SettingsJson, blank, broken, decoded}
use nass.Db.Rows.{update_where}
use nass.Db.Monad.{M, pure, query, exec, get_now, ◌>>=◌, ◌>>◌}
use nass.Oidc.{current_timestamp}
use nass.Proxy.{Server, Url, BackendOptions, Handler, reverse_proxy, gated, add_route, remove_route}

pub record AppRoute : Type 0 where
  pub name : Text
  pub host : Text
  pub settings : AppSettings

-- What is reported of an app that is skipped.
pub data Problem : Type 0 where
  decode_settings : Text → Problem
  subdomain_empty : Text → Problem
  backend_empty : Text → Problem
  host_reserved : Text → Text → Problem
  host_used : Text → Text → Text → Problem
  bad_backend : Text → Problem
  no_gate : Text → Problem

pub record Loaded : Type 0 where
  pub routes : List AppRoute
  pub problems : List Problem

abbrev pub host_of : Text → Text → Text
host_of base_host subdomain = to_lower (subdomain ++ b'.' ∷ base_host)

abbrev pub with_problem : Problem → Loaded → Loaded
with_problem p l = record l { problems = p ∷ l.problems }

abbrev pub resolve_settings : Text → Text → AppSettings → Loaded → Loaded
resolve_settings base_host name s l =
    if is_empty s.subdomain
    then with_problem (subdomain_empty name) l
    else if is_empty s.backend
    then with_problem (backend_empty name) l
    else record l {
      routes =
          record { name = name; host = host_of base_host s.subdomain; settings = s } ∷ l.routes;
    }

abbrev pub resolve_row : Text → Text → SettingsJson → Loaded → Loaded
resolve_row base_host name blank l = resolve_settings base_host name no_settings l
resolve_row base_host name broken l = with_problem (decode_settings name) l
resolve_row base_host name (decoded s) l = resolve_settings base_host name s l

-- `ORDER BY name`, by bytes.
unfoldable pub text_le : Text → Text → Bool
text_le [] t = true
text_le (c ∷ s) [] = false
text_le (c ∷ s) (d ∷ t) =
    let rest = text_le s t in if ltb c d then true else if c == d then rest else false

unfoldable pub insert_by_name : AppRow → List AppRow → List AppRow
insert_by_name a [] = a ∷ []
insert_by_name a (b ∷ rows) =
    let rest = insert_by_name a rows in if text_le a.name b.name then a ∷ b ∷ rows else b ∷ rest

unfoldable pub order_by_name : List AppRow → List AppRow
order_by_name [] = []
order_by_name (a ∷ rows) = insert_by_name a (order_by_name rows)

unfoldable pub resolve_rows : Text → List AppRow → Loaded
resolve_rows base_host [] = record { routes = []; problems = [] }
resolve_rows base_host (a ∷ rows) =
    resolve_row base_host a.name a.settings_json (resolve_rows base_host rows)

abbrev pub enabled_apps : Db → List AppRow
enabled_apps db = order_by_name (keep_if (λ a. a.enabled == 1) db.apps)

unfoldable pub load_enabled : Text → M Loaded
load_enabled base_host = query (λ db. resolve_rows base_host (enabled_apps db))

abbrev pub save_row : ℕ → AppSettings → AppRow → AppRow
save_row now s a = record a {
  enabled = 1;
  settings_json = decoded s;
  enabled_at = some (current_timestamp now);
}

abbrev pub upsert_settings : ℕ → Text → AppSettings → Db → Db
upsert_settings now name s db = record db {
  apps =
      if any_of (λ a. a.name == name) db.apps
      then update_where (λ a. a.name == name) (save_row now s) db.apps
      else db.apps
        ++ record {
          name = name;
          enabled = 1;
          settings_json = decoded s;
          enabled_at = some (current_timestamp now);
        }
          ∷ [];
}

unfoldable pub save_settings : Text → AppSettings → M (Unit {0})
save_settings name s = do now ← get_now; exec (upsert_settings now name s)

-- `has_gate` is `m.Gate != nil`.
pub record RouteManager : Type 0 where
  pub base_host : Text
  pub server : Server
  pub has_gate : Bool
  pub app_hosts : Dict Text
  pub reserved : List Text

unfoldable pub reserve : List Text → RouteManager → RouteManager
reserve [] m = m
reserve (h ∷ hs) m = reserve hs (record m { reserved = to_lower h ∷ m.reserved })

abbrev pub is_reserved : RouteManager → Text → Bool
is_reserved m host = any_of (λ h. h == host) m.reserved

-- `desired` maps an app to its host and handler, `claimed` a host to its app.
pub record Claims : Type 0 where
  pub desired : Dict (Text × Handler)
  pub claimed : Dict Text
  pub problems : List Problem

abbrev pub report : Problem → Claims → Claims
report p c = record c { problems = c.problems ++ p ∷ [] }

unfoldable pub drop_unclaimed : Dict Text → List Text → Server → Server
drop_unclaimed claimed [] s = s
drop_unclaimed claimed (host ∷ hosts) s =
    drop_unclaimed claimed hosts
      (if is_some (lookup host claimed) then s else (remove_route host s).0)

unfoldable pub add_all : Dict (Text × Handler) → Server → Server
add_all [] s = s
add_all ((name, (host, handler)) ∷ rest) s = add_all rest (add_route host handler s)

abbrev pub values : Dict Text → List Text
values = map (λ e. e.1)

abbrev pub hosts_of : Dict (Text × Handler) → Dict Text
hosts_of = map (λ e. (e.0, e.1.0))

-- What Sync does with the live routes once it knows which host is whose.
unfoldable pub install : Claims → RouteManager → RouteManager
install c m = record m {
  server = add_all c.desired (drop_unclaimed c.claimed (values m.app_hosts) m.server);
  app_hosts = hosts_of c.desired;
}

module _ (url_parse : Text → Option Url) where
  abbrev pub check_url : Option Url → Option Url
  check_url none = none
  check_url (some u) = if is_empty u.scheme || is_empty u.host then none else some u

  abbrev pub parse_backend : Text → Option Url
  parse_backend raw = if is_empty raw then none else check_url (url_parse raw)

  abbrev pub build_handler : Bool → AppRoute → Option Url → Problem ⊎ Handler
  build_handler has_gate r none = inl (bad_backend r.name)
  build_handler has_gate r (some u) =
      let h = reverse_proxy (record {
        backend = u;
        preserve_host = r.settings.preserve_host;
        timeout = r.settings.response_header_timeout_sec;
      }) in
      if r.settings.oidc_gate
      then (if has_gate then inr (gated h) else inl (no_gate r.name))
      else inr h

  unfoldable pub handler_for : Bool → AppRoute → Problem ⊎ Handler
  handler_for has_gate r = build_handler has_gate r (parse_backend r.settings.backend)

  abbrev pub claim_built : AppRoute → Problem ⊎ Handler → Claims → Claims
  claim_built r (inl p) c = report p c
  claim_built r (inr h) c = record c {
    claimed = insert r.host r.name c.claimed;
    desired = insert r.name (r.host, h) c.desired;
  }

  abbrev pub claim_free : Bool → AppRoute → Option Text → Claims → Claims
  claim_free has_gate r (some owner) c = report (host_used r.name r.host owner) c
  claim_free has_gate r none c = claim_built r (handler_for has_gate r) c

  -- One round of the loop over the routes.
  abbrev pub claim : RouteManager → AppRoute → Claims → Claims
  claim m r c =
      if is_reserved m r.host
      then report (host_reserved r.name r.host) c
      else claim_free m.has_gate r (lookup r.host c.claimed) c

  unfoldable pub claim_all : RouteManager → List AppRoute → Claims → Claims
  claim_all m [] c = c
  claim_all m (r ∷ routes) c = claim_all m routes (claim m r c)

  abbrev pub claims_of : RouteManager → Loaded → Claims
  claims_of m l =
      claim_all m l.routes (record { desired = []; claimed = []; problems = l.problems })

  -- The manager afterwards, with the problems to report. A query that fails leaves it as it was.
  unfoldable pub sync : RouteManager → M (RouteManager × List Problem)
  sync m = do
    l ← load_enabled m.base_host
    pure (install (claims_of m l) m, (claims_of m l).problems)
