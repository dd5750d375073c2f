-- ===== src/Oidc/Tokens.antt =====
-- internal/auth/oidc/tokens.go: access tokens, refresh tokens and their rotation.
use nass.Common.{
  ℕ, zero, suc, ◌+◌, ◌*◌, Bool, false, not, ◌&&◌, Option, none, some, List, [], ◌∷◌, ◌++◌, Text,
  text, ltb, ◌==◌, text_eq_test, nat_eq_test, find_if, any_of, format_int, parse_int, Int64,
  nonnegative, negative,
}
use nass.Db.{Db, AccessTokenRow, RefreshTokenRow}
use nass.Db.Rows.{delete_where}
use nass.Db.Monad.{
  Error, M, pure, fail, branch, get_now, ◌>>=◌, ◌>>◌, exec, query, new_uuid, exec_checked,
  violation, unique_error, foreign_key_error, invalid_subject, token_invalid, invalid_refresh_token,
  refresh_token_expired, Ends, commits, with_tx,
}
use nass.Users.{has_user, null_str, coalesce}
use nass.Oidc.{second}

abbrev pub access_token_ttl : ℕ
access_token_ttl = 3600 * second

abbrev pub refresh_token_ttl : ℕ
refresh_token_ttl = 30 * 24 * 3600 * second

pub record AccessToken : Type 0 where
  pub id : Text
  pub client_id : Text
  pub user_id : Text
  pub refresh_token_id : Text
  pub audience : List Text
  pub scopes : List Text
  pub expires_at : ℕ

-- No row of users has an id below zero.
abbrev pub has_subject : Int64 → Db → Bool
has_subject (nonnegative id) db = has_user id db
has_subject (negative id) db = false

abbrev pub id_of : Int64 → ℕ
id_of (nonnegative id) = id
id_of (negative id) = 0

abbrev pub insert_access : AccessTokenRow → Db → Db
insert_access t db = record db { oidc_access_tokens = db.oidc_access_tokens ++ t ∷ [] }

abbrev pub access_violation : Text → Int64 → Db → Option Error
access_violation id subject db =
    violation (any_of (λ t. t.id == id) db.oidc_access_tokens) unique_error
      (violation (not (has_subject subject db)) foreign_key_error none)

abbrev pub new_access : Text → Text → Int64 → Text → List Text → List Text → ℕ → AccessTokenRow
new_access id client_id subject refresh_id audience scopes expires = record {
  id = id;
  client_id = client_id;
  user_id = id_of subject;
  refresh_token_id = null_str refresh_id;
  audience = audience;
  scopes = scopes;
  expires_at = expires;
}

abbrev pub insert_access_for :
    Text → Text → Text → List Text → List Text → Option Int64 → M AccessToken
insert_access_for client_id refresh_id subject audience scopes none = fail invalid_subject
insert_access_for client_id refresh_id subject audience scopes (some uid) = do
  id ← new_uuid
  now ← get_now
  exec_checked (access_violation id uid) (
      insert_access
        (new_access id client_id uid refresh_id audience scopes (now + access_token_ttl)))
  pure (record {
    id = id;
    client_id = client_id;
    user_id = subject;
    refresh_token_id = refresh_id;
    audience = audience;
    scopes = scopes;
    expires_at = now + access_token_ttl;
  })

unfoldable pub insert_access_token : Text → Text → Text → List Text → List Text → M AccessToken
insert_access_token client_id refresh_id subject audience scopes =
    insert_access_for client_id refresh_id subject audience scopes (parse_int subject)

abbrev pub find_access : Text → Db → Option AccessTokenRow
find_access id db = find_if (λ t. t.id == id) db.oidc_access_tokens

abbrev pub access_of : AccessTokenRow → AccessToken
access_of t = record {
  id = t.id;
  client_id = t.client_id;
  user_id = format_int t.user_id;
  refresh_token_id = coalesce t.refresh_token_id;
  audience = t.audience;
  scopes = t.scopes;
  expires_at = t.expires_at;
}

abbrev pub scan_access : Option AccessTokenRow → M AccessToken
scan_access none = fail token_invalid
scan_access (some t) = pure (access_of t)

unfoldable pub load_access_token : Text → M AccessToken
load_access_token id = do row ← query (find_access id); scan_access row

pub record RefreshTokenRequest : Type 0 where
  pub id : Text
  pub client_id : Text
  pub user_id : Text
  pub scopes : List Text
  pub audience : List Text
  pub auth_time : ℕ
  pub amr : List Text

abbrev pub insert_refresh : RefreshTokenRow → Db → Db
insert_refresh t db = record db { oidc_refresh_tokens = db.oidc_refresh_tokens ++ t ∷ [] }

abbrev pub refresh_violation : Text → Int64 → Db → Option Error
refresh_violation id subject db =
    violation (any_of (λ t. t.id == id) db.oidc_refresh_tokens) unique_error
      (violation (not (has_subject subject db)) foreign_key_error none)

-- `if authTime.IsZero() { authTime = time.Now().UTC() }`
abbrev pub auth_time_or : ℕ → ℕ → ℕ
auth_time_or now zero = now
auth_time_or now (suc t) = suc t

abbrev pub new_refresh : Text → Int64 → Text → List Text → List Text → ℕ → ℕ → RefreshTokenRow
new_refresh id subject client_id scopes audience auth_time expires = record {
  id = id;
  user_id = id_of subject;
  client_id = client_id;
  scopes = scopes;
  audience = audience;
  auth_time = auth_time;
  expires_at = expires;
}

abbrev pub insert_refresh_for :
    Text → Text → List Text → List Text → ℕ → Option Int64 → M (Unit {0})
insert_refresh_for id client_id scopes audience auth_time none = fail invalid_subject
insert_refresh_for id client_id scopes audience auth_time (some uid) = do
  now ← get_now
  exec_checked (refresh_violation id uid) (
      insert_refresh (
        new_refresh id uid client_id scopes audience (auth_time_or now auth_time)
          (now + refresh_token_ttl)))

unfoldable pub insert_refresh_token : Text → Text → Text → List Text → List Text → ℕ → M (Unit {0})
insert_refresh_token id subject client_id scopes audience auth_time =
    insert_refresh_for id client_id scopes audience auth_time (parse_int subject)

abbrev pub find_refresh : Text → Db → Option RefreshTokenRow
find_refresh id db = find_if (λ t. t.id == id) db.oidc_refresh_tokens

abbrev pub refresh_request_of : RefreshTokenRow → RefreshTokenRequest
refresh_request_of t = record {
  id = t.id;
  client_id = t.client_id;
  user_id = format_int t.user_id;
  scopes = t.scopes;
  audience = t.audience;
  auth_time = t.auth_time;
  amr = text "pwd" ∷ [];
}

abbrev pub scan_refresh : Option RefreshTokenRow → M RefreshTokenRequest
scan_refresh none = fail invalid_refresh_token
scan_refresh (some t) = do
  now ← get_now
  branch (ltb t.expires_at now) (fail invalid_refresh_token) (pure (refresh_request_of t))

unfoldable pub load_refresh_token : Text → M RefreshTokenRequest
load_refresh_token id = do row ← query (find_refresh id); scan_refresh row

abbrev pub delete_refresh : Text → Db → Db
delete_refresh id db = record db {
  oidc_refresh_tokens = delete_where (λ t. t.id == id) db.oidc_refresh_tokens;
}

-- `refresh_token_id = ?`, which NULL never is.
abbrev pub is_of_refresh : Text → Option Text → Bool
is_of_refresh id none = false
is_of_refresh id (some other) = other == id

abbrev pub delete_older_access : Text → Text → Db → Db
delete_older_access refresh_id kept db = record db {
  oidc_access_tokens =
      delete_where (λ t. is_of_refresh refresh_id t.refresh_token_id && not (t.id == kept))
        db.oidc_access_tokens;
}

-- The row that takes the place of `t`.
abbrev pub successor : Text → List Text → ℕ → RefreshTokenRow → RefreshTokenRow
successor new_id scopes expires t = record t { id = new_id; scopes = scopes; expires_at = expires }

abbrev pub rotate_row :
    Text → Text → Text → List Text → Option RefreshTokenRow → M (Ends (Unit {0}))
rotate_row current_id new_id access_id scopes none = fail invalid_refresh_token
rotate_row current_id new_id access_id scopes (some t) = do
  now ← get_now
  branch (ltb t.expires_at now) (fail refresh_token_expired) (do
    exec (delete_refresh current_id)
    exec_checked (refresh_violation new_id (nonnegative t.user_id))
        (insert_refresh (successor new_id scopes (now + refresh_token_ttl) t))
    exec (delete_older_access current_id access_id)
    pure (commits tt))

unfoldable pub rotate_refresh_token : Text → Text → Text → List Text → M (Unit {0})
rotate_refresh_token current_id new_id access_id scopes =
    with_tx
      (do row ← query (find_refresh current_id); rotate_row current_id new_id access_id scopes row)
