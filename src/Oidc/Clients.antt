-- ===== src/Oidc/Clients.antt =====
-- internal/auth/oidc/clients.go: the OIDC clients, one for an app. bcrypt is a parameter.
pub mod Lifecycle
use nass.Common.{
  ℕ, zero, suc, ◌+◌, ◌*◌, ◌≡◌, Bool, true, false, not, ◌&&◌, Option, none, some, List, [], ◌∷◌,
  ◌++◌, Text, text, ltb, ◌==◌, text_eq_test, nat_eq_test, find_if, any_of, keep_if, is_empty,
  if◌then◌else◌, format_int, parse_int, Int64, nonnegative, negative,
}
use nass.Db.{
  no_settings, Db, AuthRequestRow, AccessTokenRow, RefreshTokenRow, AuthCodeRow, ClientRow, AppRow,
  AppSettings, SettingsJson, decoded,
}
use nass.Db.Rows.{delete_where, update_where}
use nass.Db.Monad.{
  Error, M, ok, pure, fail, branch, get_now, ◌>>=◌, ◌>>◌, sql, exec, query, new_uuid, exec_checked,
  violation, unique_error, foreign_key_error, map_error, auth_request_not_found, invalid_subject,
  token_invalid, invalid_refresh_token, refresh_token_expired, Ends, commits, returns, with_tx,
  ignore_error, token_expired, token_not_for_client, code_invalid, login_required, client_not_found,
  invalid_client_secret, client_exists, no_client, app_name_required, redirect_uri_required,
  random_token,
}
use nass.Users.{Bcrypt, User, get, scan_user, generate_hash}
use nass.Oidc.{second, is_after_now, current_timestamp}

abbrev pub is_no_uri : List Text → Bool
is_no_uri [] = true
is_no_uri (uri ∷ uris) = false

pub data ApplicationType : Type 0 where
  web native user_agent : ApplicationType

abbrev pub parse_app_type : Text → ApplicationType
parse_app_type s =
    if s == text "native" then native else if s == text "user_agent" then user_agent else web

-- The op.Client of a row.
pub record Client : Type 0 where
  pub id : Text
  pub redirect_uris : List Text
  pub application_type : ApplicationType
  pub auth_method : Text
  pub response_types : List Text
  pub grant_types : List Text
  pub dev_mode : Bool

pub record ProvisionResult : Type 0 where
  pub client_id : Text
  pub client_secret : Text
  pub app_name : Text

abbrev pub enable : ℕ → AppRow → AppRow
enable now a = record a { enabled = 1; enabled_at = some (current_timestamp now) }

-- `INSERT … ON CONFLICT(name) DO UPDATE`
abbrev pub upsert_app : ℕ → Text → Db → Db
upsert_app now app_name db = record db {
  apps =
      if any_of (λ a. a.name == app_name) db.apps
      then update_where (λ a. a.name == app_name) (enable now) db.apps
      else db.apps
        ++ record {
          name = app_name;
          enabled = 1;
          settings_json = decoded no_settings;
          enabled_at = some (current_timestamp now);
        }
          ∷ [];
}

-- A row of oidc_clients, with the defaults of the other columns.
abbrev pub new_client : Text → Text → Text → List Text → ClientRow
new_client client_id app_name hash uris = record {
  client_id = client_id;
  app_name = app_name;
  client_secret_hash = hash;
  redirect_uris = uris;
  application_type = text "web";
  auth_method = text "client_secret_basic";
  grant_types = text "authorization_code" ∷ text "refresh_token" ∷ [];
  response_types = text "code" ∷ [];
  dev_mode = 0;
}

abbrev pub insert_client : ClientRow → Db → Db
insert_client c db = record db { oidc_clients = db.oidc_clients ++ c ∷ [] }

-- PRIMARY KEY (client_id), UNIQUE (app_name), and app_name REFERENCES apps(name).
abbrev pub client_violation : ClientRow → Db → Option Error
client_violation c db =
    violation (any_of (λ x. x.client_id == c.client_id) db.oidc_clients) unique_error (
      violation (any_of (λ x. x.app_name == c.app_name) db.oidc_clients) unique_error
        (violation (not (any_of (λ a. a.name == c.app_name) db.apps)) foreign_key_error none))

abbrev pub client_error : Error → Error
client_error unique_error = client_exists
client_error e = e

abbrev pub delete_access_of_client : Text → Db → Db
delete_access_of_client client_id db = record db {
  oidc_access_tokens =
      delete_where (λ (t : AccessTokenRow). t.client_id == client_id) db.oidc_access_tokens;
}

abbrev pub delete_refresh_of_client : Text → Db → Db
delete_refresh_of_client client_id db = record db {
  oidc_refresh_tokens =
      delete_where (λ (t : RefreshTokenRow). t.client_id == client_id) db.oidc_refresh_tokens;
}

abbrev pub delete_client_row : Text → Db → Db
delete_client_row client_id db = record db {
  oidc_clients = delete_where (λ c. c.client_id == client_id) db.oidc_clients;
}

abbrev pub client_of_app : Text → Db → Option ClientRow
client_of_app app_name db = find_if (λ c. c.app_name == app_name) db.oidc_clients

abbrev pub delete_found : Option ClientRow → M (Ends Bool)
delete_found none = pure (returns false)
delete_found (some c) = do
  exec (delete_access_of_client c.client_id)
  exec (delete_refresh_of_client c.client_id)
  exec (delete_client_row c.client_id)
  pure (commits true)

unfoldable pub delete_client : Text → M Bool
delete_client app_name = with_tx (do row ← query (client_of_app app_name); delete_found row)

unfoldable pub revoke_client : Text → M (Unit {0})
revoke_client app_name = do found ← delete_client app_name; branch found (pure tt) (fail no_client)

unfoldable pub cleanup_client : Text → M (Unit {0})
cleanup_client app_name = do found ← delete_client app_name; pure tt

abbrev pub client_of : ClientRow → Client
client_of c = record {
  id = c.client_id;
  redirect_uris = c.redirect_uris;
  application_type = parse_app_type c.application_type;
  auth_method = c.auth_method;
  response_types = c.response_types;
  grant_types = c.grant_types;
  dev_mode = not (c.dev_mode == 0);
}

abbrev pub scan_client : Option ClientRow → M Client
scan_client none = fail client_not_found
scan_client (some c) = pure (client_of c)

abbrev pub find_client : Text → Db → Option ClientRow
find_client client_id db = find_if (λ c. c.client_id == client_id) db.oidc_clients

unfoldable pub lookup_client : Text → M Client
lookup_client client_id = do row ← query (find_client client_id); scan_client row

module _ (bcrypt : Bcrypt) where
  unfoldable pub provision : Text → List Text → M ProvisionResult
  provision app_name redirect_uris = branch (is_empty app_name) (fail app_name_required) (
      branch (is_no_uri redirect_uris) (fail redirect_uri_required) (do
        client_id ← random_token
        secret ← random_token
        hash ← generate_hash bcrypt secret
        with_tx (do
          now ← get_now
          exec (upsert_app now app_name)
          map_error client_error (
              exec_checked (client_violation (new_client client_id app_name hash redirect_uris))
                (insert_client (new_client client_id app_name hash redirect_uris)))
          pure (
              commits
                (record { client_id = client_id; client_secret = secret; app_name = app_name })))))

  abbrev pub check_secret : Text → Option ClientRow → M (Unit {0})
  check_secret secret none = fail client_not_found
  check_secret secret (some c) =
      branch (bcrypt.accepts c.client_secret_hash secret) (pure tt) (fail invalid_client_secret)

  unfoldable pub verify_client_secret : Text → Text → M (Unit {0})
  verify_client_secret client_id secret = do
    row ← query (find_client client_id)
    check_secret secret row
