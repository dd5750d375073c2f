-- ===== src/Sessions.antt =====
-- internal/portal/session.go: the sessions of the portal. A request gives the value of its session
-- cookie, `none` where it has none.
pub mod Lookup
pub mod Signin
pub mod Lockout
mod Tests
use nass.Common.{
  ℕ, ◌+◌, ◌*◌, ◌≡◌, Bool, true, false, not, Option, none, some, List, [], ◌∷◌, ◌++◌, Text, ltb,
  ◌==◌, text_eq_test, find_if, any_of,
}
use nass.Db.{Db, SessionRow}
use nass.Db.Rows.{delete_where}
use nass.Db.Monad.{
  Error, M, Cookie, ok, pure, fail, branch, get_now, ◌>>=◌, ◌>>◌, sql, exec, query, random_token,
  set_cookie, exec_checked, violation, unique_error, foreign_key_error, ignore_error,
}
use nass.Users.{User, get, has_user}

-- Seven days.
abbrev pub session_ttl : ℕ
session_ttl = 7 * 24 * 3600 * 1000000000

pub record Session : Type 0 where
  pub id : Text
  pub user : User
  pub expires : ℕ

-- CookieDomain and Insecure of SessionStore.
pub record SessionStore : Type 0 where
  pub cookie_domain : Text
  pub insecure : Bool

abbrev pub insert_session : SessionRow → Db → Db
insert_session s db = record db { portal_sessions = db.portal_sessions ++ s ∷ [] }

-- PRIMARY KEY (id), and user_id REFERENCES users(id).
abbrev pub session_violation : SessionRow → Db → Option Error
session_violation s db =
    violation (any_of (λ r. r.id == s.id) db.portal_sessions) unique_error
      (violation (not (has_user s.user_id db)) foreign_key_error none)

abbrev pub delete_session : Text → Db → Db
delete_session id db = record db {
  portal_sessions = delete_where (λ s. s.id == id) db.portal_sessions;
}

abbrev pub find_session : Text → Db → Option SessionRow
find_session id db = find_if (λ s. s.id == id) db.portal_sessions

abbrev pub session_cookie : SessionStore → Text → ℕ → Cookie
session_cookie store id expires = record {
  value = id;
  domain = store.cookie_domain;
  expires = expires;
  max_age = none;
  http_only = true;
  secure = not store.insecure;
}

-- `Expires: time.Unix(0, 0)`, in nanoseconds since year 1.
abbrev pub unix_epoch : ℕ
unix_epoch = 62135596800 * 1000000000

abbrev pub cleared_cookie : SessionStore → Cookie
cleared_cookie store = record {
  value = [];
  domain = store.cookie_domain;
  expires = unix_epoch;
  max_age = some 0;
  http_only = false;
  secure = false;
}

abbrev pub new_session : Text → ℕ → ℕ → SessionRow
new_session id user_id expires = record { id = id; user_id = user_id; expires_at = expires }

unfoldable pub issue : SessionStore → ℕ → M Session
issue store user_id = do
  id ← random_token
  now ← get_now
  exec_checked (session_violation (new_session id user_id (now + session_ttl)))
      (insert_session (new_session id user_id (now + session_ttl)))
  set_cookie (session_cookie store id (now + session_ttl))
  user ← get user_id
  pure (record { id = id; user = user; expires = now + session_ttl })

-- A row that was found. `time.Now().After(expires)` deletes it.
abbrev pub resolve : Text → Option SessionRow → M (Option Session)
resolve cookie none = pure none
resolve cookie (some s) = do
  now ← get_now
  branch (ltb s.expires_at now) (do ignore_error (exec (delete_session cookie)); pure none)
      (do
        user ← get s.user_id
        pure (some (record { id = cookie; user = user; expires = s.expires_at })))

unfoldable pub find : Option Text → M (Option Session)
find none = pure none
find (some cookie) = do row ← query (find_session cookie); resolve cookie row

unfoldable pub revoke : SessionStore → Option Text → M (Unit {0})
revoke store none = pure tt
revoke store (some cookie) = do exec (delete_session cookie); set_cookie (cleared_cookie store)

abbrev pub delete_expired_sessions : ℕ → Db → Db
delete_expired_sessions cutoff db = record db {
  portal_sessions = delete_where (λ s. ltb s.expires_at cutoff) db.portal_sessions;
}

unfoldable pub purge_expired : ℕ → M (Unit {0})
purge_expired cutoff = exec (delete_expired_sessions cutoff)
