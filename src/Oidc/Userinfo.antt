-- ===== src/Oidc/Userinfo.antt =====
-- The answers of internal/auth/oidc/storage.go to a bearer of an access token, or to a client that asks
-- about one.
pub mod Audience
use nass.Common.{
  ℕ, zero, suc, ◌+◌, ◌*◌, ◌≡◌, Bool, true, false, not, ◌&&◌, Option, none, some, List, [], ◌∷◌,
  ◌++◌, Text, text, ltb, ◌==◌, text_eq_test, nat_eq_test, find_if, any_of, keep_if, is_empty,
  if◌then◌else◌, format_int, parse_int, Int64, nonnegative, negative,
}
use nass.Db.{
  Db, AuthRequestRow, AccessTokenRow, RefreshTokenRow, AuthCodeRow, ClientRow, AppRow, AppSettings,
  SettingsJson, decoded,
}
use nass.Db.Rows.{delete_where, update_where}
use nass.Db.Monad.{
  Error, M, ok, pure, fail, branch, get_now, ◌>>=◌, ◌>>◌, sql, exec, query, new_uuid, exec_checked,
  violation, unique_error, foreign_key_error, map_error, auth_request_not_found, invalid_subject,
  token_invalid, invalid_refresh_token, refresh_token_expired, Ends, commits, returns, with_tx,
  ignore_error, token_expired, token_not_for_client, code_invalid, login_required, client_not_found,
  invalid_client_secret, client_exists, no_client, app_name_required, redirect_uri_required,
  random_token,
}
use nass.Users.{Bcrypt, User, get, scan_user, generate_hash}
use nass.Oidc.{second, is_after_now, current_timestamp}
use nass.Oidc.Tokens.{AccessToken, load_access_token}

pub record UserInfo : Type 0 where
  pub subject : Text
  pub email : Text
  pub email_verified : Bool
  pub preferred_username : Text
  pub full_name : Text
  pub groups : List Text

-- One round of the loop over the scopes.
abbrev pub add_claim : Text → User → Text → UserInfo → UserInfo
add_claim subject u scope info =
    if scope == text "openid"
    then record info { subject = subject }
    else if scope == text "email"
    then record info {
      email = u.email;
      email_verified = if is_empty u.email then info.email_verified else true;
    }
    else if scope == text "profile"
    then record info { preferred_username = u.username; full_name = u.username }
    else info

unfoldable pub add_claims : Text → User → List Text → UserInfo → UserInfo
add_claims subject u [] info = info
add_claims subject u (scope ∷ scopes) info =
    add_claims subject u scopes (add_claim subject u scope info)

abbrev pub groups_of : User → List Text
groups_of u = if u.is_admin then text "user" ∷ text "admin" ∷ [] else text "user" ∷ []

abbrev pub finish_claims : Text → User → UserInfo → UserInfo
finish_claims subject u info = record info {
  subject = if is_empty info.subject then subject else info.subject;
  groups = groups_of u;
}

abbrev pub get_user : Int64 → M User
get_user (nonnegative id) = get id
get_user (negative id) = do row ← query (λ db. none); scan_user row

abbrev pub fill_for : UserInfo → Text → List Text → Option Int64 → M UserInfo
fill_for info subject scopes none = fail invalid_subject
fill_for info subject scopes (some uid) = do
  u ← get_user uid
  pure (finish_claims subject u (add_claims subject u scopes info))

unfoldable pub fill_userinfo : UserInfo → Text → List Text → M UserInfo
fill_userinfo info subject scopes = fill_for info subject scopes (parse_int subject)

unfoldable pub set_userinfo_from_token : UserInfo → Text → M UserInfo
set_userinfo_from_token info token_id = do
  tok ← load_access_token token_id
  now ← get_now
  branch (ltb tok.expires_at now) (fail token_expired) (fill_userinfo info tok.user_id tok.scopes)

-- The answer where no error is reported.
pub record Introspection : Type 0 where
  pub expiration : ℕ
  pub user_info : UserInfo
  pub scope : List Text
  pub client_id : Text

abbrev pub no_info : UserInfo
no_info = record {
  subject = [];
  email = [];
  email_verified = false;
  preferred_username = [];
  full_name = [];
  groups = [];
}

abbrev pub introspect_valid : AccessToken → M Introspection
introspect_valid tok = do
  info ← fill_userinfo no_info tok.user_id tok.scopes
  pure (record {
    expiration = tok.expires_at;
    user_info = info;
    scope = tok.scopes;
    client_id = tok.client_id;
  })

abbrev pub introspect_loaded : Text → AccessToken → M Introspection
introspect_loaded client_id tok = do
  now ← get_now
  branch (ltb tok.expires_at now) (fail token_expired) (
      branch (any_of (λ a. a == client_id) tok.audience) (introspect_valid tok)
        (fail token_not_for_client))

unfoldable pub set_introspection_from_token : Text → Text → M Introspection
set_introspection_from_token token_id client_id = do
  tok ← load_access_token token_id
  introspect_loaded client_id tok
