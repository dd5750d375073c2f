-- ===== src/Oidc/Requests.antt =====
-- internal/auth/oidc/authrequest.go: the authorization requests.
use nass.Common.{
  ℕ, zero, suc, ◌+◌, ◌*◌, Bool, false, not, ◌&&◌, Option, none, some, List, [], ◌∷◌, ◌++◌, Text,
  text, ◌==◌, text_eq_test, nat_eq_test, find_if, any_of, if◌then◌else◌, format_int,
}
use nass.Db.{Db, AuthRequestRow}
use nass.Db.Rows.{delete_where, update_where}
use nass.Db.Monad.{
  Error, M, ok, pure, fail, branch, get_now, ◌>>=◌, ◌>>◌, sql, exec, query, new_uuid, exec_checked,
  violation, unique_error, auth_request_not_found,
}
use nass.Oidc.{second, is_after_now, current_timestamp}

-- `s256` is CodeChallengeMethodS256; else the method is plain.
pub record CodeChallenge : Type 0 where
  pub challenge : Text
  pub s256 : Bool

-- A time of 0 is Go's zero time.
pub record AuthRequest : Type 0 where
  pub id : Text
  pub client_id : Text
  pub user_id : Text
  pub redirect_uri : Text
  pub state : Text
  pub nonce : Text
  pub scopes : List Text
  pub response_type : Text
  pub response_mode : Text
  pub code_challenge : Option CodeChallenge
  pub auth_time : ℕ
  pub done : Bool

abbrev pub get_amr : AuthRequest → List Text
get_amr a = if a.done then text "pwd" ∷ [] else []

abbrev pub get_audience : AuthRequest → List Text
get_audience a = a.client_id ∷ []

-- oidc.AuthRequest, of the library: the parameters of the request that the code reads.
pub record RequestParams : Type 0 where
  pub client_id : Text
  pub redirect_uri : Text
  pub state : Text
  pub nonce : Text
  pub scopes : List Text
  pub response_type : Text
  pub response_mode : Text
  pub code_challenge : Text
  pub code_challenge_method : Text
  pub prompt : List Text

abbrev pub auth_request_ttl : ℕ
auth_request_ttl = 30 * 60 * second

abbrev pub s256 : Text
s256 = text "S256"

abbrev pub challenge_of : Text → Text → Option CodeChallenge
challenge_of [] method = none
challenge_of (c ∷ s) method = some (record { challenge = c ∷ s; s256 = method == s256 })

-- The method is stored only along with a challenge.
abbrev pub method_if : Text → Text → Text
method_if [] method = []
method_if (c ∷ s) method = method

-- The argument `userID` is empty, or an id that the provider itself has written.
abbrev pub user_text : Option ℕ → Text
user_text none = []
user_text (some id) = format_int id

abbrev pub new_request : Text → RequestParams → Option ℕ → ℕ → AuthRequestRow
new_request id src user expires = record {
  id = id;
  client_id = src.client_id;
  user_id = user;
  redirect_uri = src.redirect_uri;
  state = src.state;
  nonce = src.nonce;
  scopes = src.scopes;
  response_type = src.response_type;
  response_mode = src.response_mode;
  code_challenge = src.code_challenge;
  code_challenge_method = method_if src.code_challenge src.code_challenge_method;
  auth_time = none;
  completed = 0;
  expires_at = expires;
}

abbrev pub insert_request : AuthRequestRow → Db → Db
insert_request r db = record db { oidc_auth_requests = db.oidc_auth_requests ++ r ∷ [] }

abbrev pub request_violation : AuthRequestRow → Db → Option Error
request_violation r db =
    violation (any_of (λ x. x.id == r.id) db.oidc_auth_requests) unique_error none

unfoldable pub insert_auth_request : RequestParams → Option ℕ → M AuthRequest
insert_auth_request src user = do
  id ← new_uuid
  now ← get_now
  exec_checked (request_violation (new_request id src user (now + auth_request_ttl)))
      (insert_request (new_request id src user (now + auth_request_ttl)))
  pure (record {
    id = id;
    client_id = src.client_id;
    user_id = user_text user;
    redirect_uri = src.redirect_uri;
    state = src.state;
    nonce = src.nonce;
    scopes = src.scopes;
    response_type = src.response_type;
    response_mode = src.response_mode;
    code_challenge = challenge_of src.code_challenge src.code_challenge_method;
    auth_time = 0;
    done = false;
  })

-- `COALESCE(user_id, 0)`, and 0 is no user.
abbrev pub subject_of : Option ℕ → Text
subject_of none = []
subject_of (some zero) = []
subject_of (some (suc n)) = format_int (suc n)

abbrev pub time_or_zero : Option ℕ → ℕ
time_or_zero none = 0
time_or_zero (some t) = t

abbrev pub request_of : AuthRequestRow → AuthRequest
request_of r = record {
  id = r.id;
  client_id = r.client_id;
  user_id = subject_of r.user_id;
  redirect_uri = r.redirect_uri;
  state = r.state;
  nonce = r.nonce;
  scopes = r.scopes;
  response_type = r.response_type;
  response_mode = r.response_mode;
  code_challenge = challenge_of r.code_challenge r.code_challenge_method;
  auth_time = time_or_zero r.auth_time;
  done = not (r.completed == 0);
}

abbrev pub find_request : ℕ → Text → Db → Option AuthRequestRow
find_request now id db =
    find_if (λ r. (r.id == id) && is_after_now now r.expires_at) db.oidc_auth_requests

abbrev pub scan_request : Option AuthRequestRow → M AuthRequest
scan_request none = fail auth_request_not_found
scan_request (some r) = pure (request_of r)

unfoldable pub load_auth_request : Text → M AuthRequest
load_auth_request id = do now ← get_now; row ← query (find_request now id); scan_request row

abbrev pub complete : ℕ → ℕ → AuthRequestRow → AuthRequestRow
complete now user r = record r {
  user_id = some user;
  auth_time = some (current_timestamp now);
  completed = 1;
}

abbrev pub complete_request : ℕ → Text → ℕ → Db → Db
complete_request now id user db = record db {
  oidc_auth_requests = update_where (λ r. r.id == id) (complete now user) db.oidc_auth_requests;
}

abbrev pub has_request : Text → Db → Bool
has_request id db = any_of (λ r. r.id == id) db.oidc_auth_requests

unfoldable pub mark_auth_request_complete : Text → ℕ → M (Unit {0})
mark_auth_request_complete id user = do
  now ← get_now
  affected ← sql (λ db. ok (has_request id db, complete_request now id user db))
  branch affected (pure tt) (fail auth_request_not_found)

-- With the codes of the request: ON DELETE CASCADE.
abbrev pub drop_request : Text → Db → Db
drop_request id db = record db {
  oidc_auth_requests = delete_where (λ r. r.id == id) db.oidc_auth_requests;
  oidc_auth_codes = delete_where (λ c. c.request_id == id) db.oidc_auth_codes;
}

unfoldable pub delete_auth_request : Text → M (Unit {0})
delete_auth_request id = exec (drop_request id)
