-- ===== src/Oidc/Storage.antt =====
-- internal/auth/oidc/storage.go: what the provider asks of its storage.
pub mod Rotation
pub mod Exchange
pub mod Revocation
pub mod Purge
use nass.Common.{
  ℕ, zero, suc, ◌+◌, ◌*◌, ◌≡◌, Bool, true, false, not, ◌&&◌, Option, none, some, List, [], ◌∷◌,
  ◌++◌, Text, text, ltb, ◌==◌, text_eq_test, nat_eq_test, find_if, any_of, keep_if, is_empty,
  if◌then◌else◌, format_int, parse_int, Int64, nonnegative, negative,
}
use nass.Db.{
  Db, AuthRequestRow, AccessTokenRow, RefreshTokenRow, AuthCodeRow, ClientRow, AppRow, AppSettings,
  SettingsJson, decoded,
}
use nass.Db.Rows.{delete_where, update_where}
use nass.Db.Monad.{
  Error, M, ok, pure, fail, branch, get_now, ◌>>=◌, ◌>>◌, sql, exec, query, new_uuid, exec_checked,
  violation, unique_error, foreign_key_error, map_error, auth_request_not_found, invalid_subject,
  token_invalid, invalid_refresh_token, refresh_token_expired, Ends, commits, returns, with_tx,
  ignore_error, token_expired, token_not_for_client, code_invalid, login_required, client_not_found,
  invalid_client_secret, client_exists, no_client, app_name_required, redirect_uri_required,
  random_token,
}
use nass.Users.{Bcrypt, User, get, scan_user, generate_hash}
use nass.Oidc.{second, is_after_now, current_timestamp}
use nass.Oidc.Requests.{
  RequestParams, AuthRequest, insert_auth_request, load_auth_request, get_audience, has_request,
}
use nass.Oidc.Tokens.{
  RefreshTokenRequest, AccessToken, insert_access_token, insert_refresh_token, rotate_refresh_token,
  find_refresh, find_access, delete_refresh, is_of_refresh, load_access_token,
}

-- `len(req.Prompt) == 1 && req.Prompt[0] == "none"`
abbrev pub is_only_none : List Text → Bool
is_only_none [] = false
is_only_none (p ∷ []) = p == text "none"
is_only_none (p ∷ q ∷ prompt) = false

unfoldable pub create_auth_request : RequestParams → Option ℕ → M AuthRequest
create_auth_request req user =
    branch (is_only_none req.prompt) (fail login_required) (insert_auth_request req user)

abbrev pub five_minutes : ℕ
five_minutes = 5 * 60 * second

abbrev pub find_code : ℕ → Text → Db → Option AuthCodeRow
find_code now code db =
    find_if (λ c. (c.code == code) && is_after_now now c.expires_at) db.oidc_auth_codes

abbrev pub request_of_code : Option AuthCodeRow → M AuthRequest
request_of_code none = fail code_invalid
request_of_code (some c) = load_auth_request c.request_id

unfoldable pub auth_request_by_code : Text → M AuthRequest
auth_request_by_code code = do now ← get_now; row ← query (find_code now code); request_of_code row

abbrev pub insert_code : AuthCodeRow → Db → Db
insert_code c db = record db { oidc_auth_codes = db.oidc_auth_codes ++ c ∷ [] }

-- PRIMARY KEY (code), UNIQUE (request_id), and request_id REFERENCES oidc_auth_requests(id).
abbrev pub code_violation : Text → Text → Db → Option Error
code_violation code id db =
    violation (any_of (λ c. c.code == code) db.oidc_auth_codes) unique_error (
      violation (any_of (λ c. c.request_id == id) db.oidc_auth_codes) unique_error
        (violation (not (has_request id db)) foreign_key_error none))

unfoldable pub save_auth_code : Text → Text → M (Unit {0})
save_auth_code id code = do
  now ← get_now
  exec_checked (code_violation code id)
      (insert_code (record { code = code; request_id = id; expires_at = now + five_minutes }))

-- op.TokenRequest: one of ours, or another of the library.
pub data TokenRequest : Type 0 where
  from_auth : AuthRequest → TokenRequest
  from_refresh : RefreshTokenRequest → TokenRequest
  from_other : Text → List Text → List Text → TokenRequest

abbrev pub client_id_from_request : TokenRequest → Text
client_id_from_request (from_auth a) = a.client_id
client_id_from_request (from_refresh r) = r.client_id
client_id_from_request (from_other subject audience scopes) = []

abbrev pub auth_time_from_request : TokenRequest → ℕ
auth_time_from_request (from_auth a) = a.auth_time
auth_time_from_request (from_refresh r) = r.auth_time
auth_time_from_request (from_other subject audience scopes) = 0

abbrev pub get_subject : TokenRequest → Text
get_subject (from_auth a) = a.user_id
get_subject (from_refresh r) = r.user_id
get_subject (from_other subject audience scopes) = subject

abbrev pub audience_of : TokenRequest → List Text
audience_of (from_auth a) = get_audience a
audience_of (from_refresh r) = r.audience
audience_of (from_other subject audience scopes) = audience

abbrev pub scopes_of : TokenRequest → List Text
scopes_of (from_auth a) = a.scopes
scopes_of (from_refresh r) = r.scopes
scopes_of (from_other subject audience scopes) = scopes

unfoldable pub create_access_token : TokenRequest → M (Text × ℕ)
create_access_token req = do
  tok ←
      insert_access_token (client_id_from_request req) [] (get_subject req) (audience_of req)
        (scopes_of req)
  pure (tok.id, tok.expires_at)

pub record Issued : Type 0 where
  pub access : Text
  pub refresh : Text
  pub expires : ℕ

-- Code flow with offline_access: a fresh pair.
abbrev pub issue_pair : TokenRequest → M Issued
issue_pair req = do
  refresh_id ← new_uuid
  access ←
      insert_access_token (client_id_from_request req) refresh_id (get_subject req)
        (audience_of req) (scopes_of req)
  insert_refresh_token refresh_id (get_subject req) (client_id_from_request req) (scopes_of req)
      (audience_of req) (auth_time_from_request req)
  pure (record { access = access.id; refresh = refresh_id; expires = access.expires_at })

-- The refresh-token grant.
abbrev pub rotate_pair : TokenRequest → Text → M Issued
rotate_pair req current = do
  new_id ← new_uuid
  access ←
      insert_access_token (client_id_from_request req) new_id (get_subject req) (audience_of req)
        (scopes_of req)
  rotate_refresh_token current new_id access.id (scopes_of req)
  pure (record { access = access.id; refresh = new_id; expires = access.expires_at })

unfoldable pub create_access_and_refresh_tokens : TokenRequest → Text → M Issued
create_access_and_refresh_tokens req [] = issue_pair req
create_access_and_refresh_tokens req (c ∷ s) = rotate_pair req (c ∷ s)

abbrev pub is_user : Int64 → ℕ → Bool
is_user (nonnegative id) user = user == id
is_user (negative id) user = false

abbrev pub delete_access_of : Int64 → Text → Db → Db
delete_access_of uid client_id db = record db {
  oidc_access_tokens =
      delete_where (λ (t : AccessTokenRow). is_user uid t.user_id && t.client_id == client_id)
        db.oidc_access_tokens;
}

abbrev pub delete_refresh_of : Int64 → Text → Db → Db
delete_refresh_of uid client_id db = record db {
  oidc_refresh_tokens =
      delete_where (λ (t : RefreshTokenRow). is_user uid t.user_id && t.client_id == client_id)
        db.oidc_refresh_tokens;
}

abbrev pub terminate_for : Text → Option Int64 → M (Unit {0})
terminate_for client_id none = fail invalid_subject
terminate_for client_id (some uid) = do
  exec (delete_access_of uid client_id)
  exec (delete_refresh_of uid client_id)

unfoldable pub terminate_session : Text → Text → M (Unit {0})
terminate_session user_id client_id = terminate_for client_id (parse_int user_id)

abbrev pub delete_access : Text → Db → Db
delete_access id db = record db {
  oidc_access_tokens = delete_where (λ (t : AccessTokenRow). t.id == id) db.oidc_access_tokens;
}

abbrev pub delete_access_by_refresh : Text → Db → Db
delete_access_by_refresh id db = record db {
  oidc_access_tokens =
      delete_where (λ (t : AccessTokenRow). is_of_refresh id t.refresh_token_id)
        db.oidc_access_tokens;
}

-- An unknown token is revoked already: RFC 7009.
abbrev pub revoke_refresh : Text → Text → Option RefreshTokenRow → M (Unit {0})
revoke_refresh id client_id none = pure tt
revoke_refresh id client_id (some t) =
    branch (t.client_id == client_id)
      (do exec (delete_refresh id); exec (delete_access_by_refresh id)) (fail token_not_for_client)

-- The error of the first DELETE is thrown away.
abbrev pub revoke_access : Text → Text → Option AccessTokenRow → M (Unit {0})
revoke_access id client_id none = do row ← query (find_refresh id); revoke_refresh id client_id row
revoke_access id client_id (some t) =
    branch (t.client_id == client_id) (ignore_error (exec (delete_access id)))
      (fail token_not_for_client)

unfoldable pub revoke_token : Text → Text → Text → M (Unit {0})
revoke_token id user_id client_id = do row ← query (find_access id); revoke_access id client_id row

abbrev pub refresh_info : Text → Text → Option RefreshTokenRow → M (Text × Text)
refresh_info client_id token none = fail invalid_refresh_token
refresh_info client_id token (some t) =
    branch (t.client_id == client_id) (pure (format_int t.user_id, token))
      (fail invalid_refresh_token)

unfoldable pub get_refresh_token_info : Text → Text → M (Text × Text)
get_refresh_token_info client_id token = do
  row ← query (find_refresh token)
  refresh_info client_id token row

abbrev pub validate_jwt_profile_scopes : List Text → List Text
validate_jwt_profile_scopes scopes = keep_if (λ s. s == text "openid") scopes

abbrev pub has_dead_request : ℕ → Db → AuthCodeRow → Bool
has_dead_request cutoff db c =
    any_of (λ r. (r.id == c.request_id) && ltb r.expires_at cutoff) db.oidc_auth_requests

-- The codes of a deleted request go with it.
abbrev pub purge_requests : ℕ → Db → Db
purge_requests cutoff db = record db {
  oidc_auth_requests = delete_where (λ r. ltb r.expires_at cutoff) db.oidc_auth_requests;
  oidc_auth_codes = delete_where (has_dead_request cutoff db) db.oidc_auth_codes;
}

abbrev pub purge_codes : ℕ → Db → Db
purge_codes cutoff db = record db {
  oidc_auth_codes = delete_where (λ c. ltb c.expires_at cutoff) db.oidc_auth_codes;
}

abbrev pub purge_access : ℕ → Db → Db
purge_access cutoff db = record db {
  oidc_access_tokens = delete_where (λ t. ltb t.expires_at cutoff) db.oidc_access_tokens;
}

abbrev pub purge_refresh : ℕ → Db → Db
purge_refresh cutoff db = record db {
  oidc_refresh_tokens = delete_where (λ t. ltb t.expires_at cutoff) db.oidc_refresh_tokens;
}

-- The four rounds of the loop over the tables.
unfoldable pub purge_expired : ℕ → M (Unit {0})
purge_expired cutoff = do
  exec (purge_requests cutoff)
  exec (purge_codes cutoff)
  exec (purge_access cutoff)
  exec (purge_refresh cutoff)
