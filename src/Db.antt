-- ===== src/Db.antt =====
-- internal/db: the tables of internal/db/migrations, as lists of rows, newest last. A column of
-- JSON text holds the value that it encodes, a timestamp holds nanoseconds since Go's zero time.
pub mod Monad
pub mod Rows
pub mod Ensures
use nass.Common.{false, Bool, ℕ, Text, List, [], Option}

pub record UserRow : Type 0 where
  pub id : ℕ
  pub username : Text
  pub email : Option Text
  pub password_hash : Text
  pub is_admin : ℕ
  pub created_at : ℕ
  pub updated_at : ℕ

pub record AppSettings : Type 0 where
  pub subdomain : Text
  pub backend : Text
  pub preserve_host : Bool
  pub oidc_gate : Bool
  pub response_header_timeout_sec : ℕ
  pub display_name : Text
  pub description : Text
  pub icon : Text
  pub compose_file : Text
  pub data_root : Text

-- What an absent setting reads as, and what '{}' decodes to.
abbrev pub no_settings : AppSettings
no_settings = record {
  subdomain = [];
  backend = [];
  preserve_host = false;
  oidc_gate = false;
  response_header_timeout_sec = 0;
  display_name = [];
  description = [];
  icon = [];
  compose_file = [];
  data_root = [];
}

-- The text of settings_json: empty, not decodable, or what it decodes to.
pub data SettingsJson : Type 0 where
  blank : SettingsJson
  broken : SettingsJson
  decoded : AppSettings → SettingsJson

pub record AppRow : Type 0 where
  pub name : Text
  pub enabled : ℕ
  pub settings_json : SettingsJson
  pub enabled_at : Option ℕ

pub record ClientRow : Type 0 where
  pub client_id : Text
  pub app_name : Text
  pub client_secret_hash : Text
  pub redirect_uris : List Text
  pub application_type : Text
  pub auth_method : Text
  pub grant_types : List Text
  pub response_types : List Text
  pub dev_mode : ℕ

pub record AuthRequestRow : Type 0 where
  pub id : Text
  pub client_id : Text
  pub user_id : Option ℕ
  pub redirect_uri : Text
  pub state : Text
  pub nonce : Text
  pub scopes : List Text
  pub response_type : Text
  pub response_mode : Text
  pub code_challenge : Text
  pub code_challenge_method : Text
  pub auth_time : Option ℕ
  pub completed : ℕ
  pub expires_at : ℕ

pub record AuthCodeRow : Type 0 where
  pub code : Text
  pub request_id : Text
  pub expires_at : ℕ

pub record RefreshTokenRow : Type 0 where
  pub id : Text
  pub user_id : ℕ
  pub client_id : Text
  pub scopes : List Text
  pub audience : List Text
  pub auth_time : ℕ
  pub expires_at : ℕ

pub record AccessTokenRow : Type 0 where
  pub id : Text
  pub client_id : Text
  pub user_id : ℕ
  pub refresh_token_id : Option Text
  pub audience : List Text
  pub scopes : List Text
  pub expires_at : ℕ

pub record SessionRow : Type 0 where
  pub id : Text
  pub user_id : ℕ
  pub expires_at : ℕ

-- `next_user_id` is the counter of AUTOINCREMENT: ids are not used again.
pub record Db : Type 0 where
  pub users : List UserRow
  pub next_user_id : ℕ
  pub apps : List AppRow
  pub oidc_clients : List ClientRow
  pub oidc_auth_requests : List AuthRequestRow
  pub oidc_auth_codes : List AuthCodeRow
  pub oidc_refresh_tokens : List RefreshTokenRow
  pub oidc_access_tokens : List AccessTokenRow
  pub portal_sessions : List SessionRow

abbrev pub empty_db : Db
empty_db = record {
  users = [];
  next_user_id = 1;
  apps = [];
  oidc_clients = [];
  oidc_auth_requests = [];
  oidc_auth_codes = [];
  oidc_refresh_tokens = [];
  oidc_access_tokens = [];
  portal_sessions = [];
}
