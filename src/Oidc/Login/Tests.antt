-- ===== src/Oidc/Login/Tests.antt =====
-- The login page at concrete inputs.
use nass.Common.{
  ◌≡◌, refl, true, false, Option, none, some, [], ◌∷◌, Text, text, text_eq, text_eq_iff,
}
use mathlib.Core.Option.{some-injective}
use nass.Db.{UserRow, AuthRequestRow, empty_db}
use nass.Db.Monad.{World, ok, ◌>>=◌, sql, attempt}
use nass.Db.Ensures.{Holds}
use nass.Users.{Bcrypt, new_row, verify, get_by_username}
use nass.Throttle.{allow, failed, success}
use nass.Oidc.Requests.{mark_auth_request_complete}
use nass.Oidc.Login.{Form, callback, form, post_login}
use nass.Oidc.Login.Completion.{IsPage, IsLoggedIn, post_login-Holds}

abbrev plain : Bcrypt
plain = record {
  generate = λ salt password. some password;
  accepts = λ hash password. text_eq password hash;
  accepts_own =
      λ salt password hash e. (text_eq_iff password hash).1 (some-injective password hash e);
}

abbrev ada : UserRow
ada = new_row 1 10 (text "ada") none (text "analytical") 1

abbrev pending : AuthRequestRow
pending = record {
  id = text "q1";
  client_id = text "wiki";
  user_id = none;
  redirect_uri = text "https://wiki.example.org/cb";
  state = text "s";
  nonce = text "n";
  scopes = text "openid" ∷ [];
  response_type = text "code";
  response_mode = [];
  code_challenge = [];
  code_challenge_method = [];
  auth_time = none;
  completed = 0;
  expires_at = 5000;
}

abbrev home : World
home = record {
  db = record empty_db { users = ada ∷ []; next_user_id = 2; oidc_auth_requests = pending ∷ [] };
  now = 100;
  calls = 0;
  fault = λ n. false;
  drawn = 0;
  fresh = λ n. n ∷ [];
  cookies = [];
}

abbrev filled : Text → Form
filled password = record {
  origin = [];
  referer = [];
  host = text "auth.example.org";
  parsed = true;
  id = text "q1";
  username = text "ada";
  password = password;
}

abbrev no_host : Text → Option Text
no_host s = none

code : Unit {0}
unfolding post_login verify get_by_username mark_auth_request_complete sql ◌>>=◌ attempt text_eq
    allow failed success
code = tt

signs_in :
    (post_login no_host plain (text "10.0.0.1") none (filled (text "analytical")) home).0
    ≡ ok (none, callback (text "q1"))
unfolding code
signs_in = refl

wrong_password :
    (post_login no_host plain (text "10.0.0.1") none (filled (text "other")) home).0
    ≡ ok (none, form (text "invalid username or password"))
unfolding code
wrong_password = refl

post_login-Holds_example :
    Holds 100
      (λ r db.
        IsPage
          (IsLoggedIn plain (text "10.0.0.1") no_host (filled (text "analytical")) none 100)
          (text "q1")
          r.1
          home.db
          db)
      (λ db. ⊥)
      (post_login no_host plain (text "10.0.0.1") none (filled (text "analytical")) home)
post_login-Holds_example =
    post_login-Holds plain (text "10.0.0.1") no_host (filled (text "analytical")) none home
