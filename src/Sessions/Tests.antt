-- ===== src/Sessions/Tests.antt =====
-- The portal's sessions at concrete inputs.
use nass.Common.{
  ◌+◌, ◌≡◌, refl, false, none, some, [], ◌∷◌, text, text_eq, text_eq_test, text_eq_iff, nat_eq_test,
  arith,
}
use mathlib.Core.Option.{some-injective}
use nass.Db.{Db, UserRow, empty_db}
use nass.Db.Monad.{World, Result, ok, with_tx, random_token, set_cookie, ◌>>=◌, sql, ignore_error}
use nass.Db.Ensures.{Holds}
use nass.Users.{Bcrypt, new_row, generate_hash, revoke_sessions, user_of, get, set_password}
use nass.Sessions.{
  Session, session_cookie, SessionStore, find, issue, purge_expired, new_session, insert_session,
  session_ttl,
}
use nass.Sessions.Lookup.{IsFound, find-Holds}
use nass.Sessions.Signin.{find-issue}

abbrev plain : Bcrypt
plain = record {
  generate = λ salt password. some password;
  accepts = λ hash password. text_eq password hash;
  accepts_own =
      λ salt password hash e. (text_eq_iff password hash).1 (some-injective password hash e);
}

abbrev ada : UserRow
ada = new_row 1 10 (text "ada") none (text "analytical") 1

abbrev bob : UserRow
bob = new_row 2 20 (text "bob") none (text "brickwork") 0

abbrev accounts : Db
accounts = record empty_db {
  users = ada ∷ bob ∷ [];
  next_user_id = 3;
  portal_sessions = new_session (text "a") 1 900 ∷ new_session (text "b") 2 50 ∷ [];
}

abbrev home : World
home = record {
  db = accounts;
  now = 100;
  calls = 0;
  fault = λ n. false;
  drawn = 0;
  fresh = λ n. n ∷ [];
  cookies = [];
}

abbrev store : SessionStore
store = record { cookie_domain = text "example.org"; insecure = false }

code : Unit {0}
unfolding find issue purge_expired set_password revoke_sessions get generate_hash sql with_tx ◌>>=◌
    random_token set_cookie ignore_error text_eq
code = tt

-- The row of `b` has expired, and is gone afterwards.
expired : (find (some (text "b")) home).0 ≡ ok none
unfolding code
expired = refl

expired_deleted :
    (find (some (text "b")) home).1.db.portal_sessions ≡ new_session (text "a") 1 900 ∷ []
unfolding code
expired_deleted = refl

abbrev sign_in : Result Session × World
sign_in = issue store 2 home

abbrev bobs : Session
bobs = record { id = 0 ∷ []; user = user_of bob; expires = 100 + session_ttl }

abbrev signed_in : World
signed_in = record home {
  db = insert_session (new_session (0 ∷ []) 2 (100 + session_ttl)) accounts;
  calls = 3;
  drawn = 1;
  cookies = session_cookie store (0 ∷ []) (100 + session_ttl) ∷ [];
}

signs_in : issue store 2 home ≡ (ok bobs, signed_in)
unfolding code
signs_in = refl

find-issue_example : (find (some (0 ∷ [])) (record signed_in { now = 200 })).0 ≡ ok (some bobs)
find-issue_example =
    find-issue store 2 home signed_in (record signed_in { now = 200 }) bobs signs_in refl
      (ground arith) (λ n. refl)

abbrev adas : Session
adas = record { id = text "a"; user = user_of ada; expires = 900 }

finds_ada : find (some (text "a")) home ≡ (ok (some adas), record home { calls = 2 })
unfolding code
finds_ada = refl

find-Holds_example :
    Holds 100 (IsFound (text "a") 100 accounts) (λ db. db ≡ accounts) (find (some (text "a")) home)
find-Holds_example = find-Holds (text "a") home

abbrev reset_world : World
reset_world = (set_password plain 2 (text "new-password") home).1
