-- ===== src/Portal/Login.antt =====
-- internal/portal/login.go: the login of the portal. url.Parse is a parameter, once for the host of an
-- origin and once for safeNext; the address of the client and its cookie are given.
pub mod Signin
use nass.Common.{
  ℕ, Bool, true, false, not, Option, none, some, List, [], ◌∷◌, Text, text, is_empty, ◌==◌,
  text_eq_test, if◌then◌else◌,
}
use nass.Db.Monad.{M, Error, Result, ok, err, pure, branch, get_now, attempt, ◌>>=◌, ◌>>◌}
use nass.Throttle.{Throttle, allow, failed, success, retry_after}
use nass.Users.{Bcrypt, User, verify}
use nass.Sessions.{Session, SessionStore, find, issue, revoke}
use nass.Portal.Navigation.{ParsedUrl, safe_next}

-- An error page, the login page with a message and what it carries as `next`, or a redirect.
pub data Page : Type 0 where
  bad_request forbidden server_error : Page
  login_page : Text → Text → Page
  too_many : ℕ → Text → Page
  found : Text → Page

pub record LoginForm : Type 0 where
  pub origin : Text
  pub referer : Text
  pub host : Text
  pub parsed : Bool
  pub username : Text
  pub password : Text
  pub next : Text

abbrev pub is_host : Text → Option Text → Bool
is_host host none = false
is_host host (some h) = h == host

-- sameOrigin of internal/portal/admin.go
abbrev pub same_origin : (Text → Option Text) → Text → Text → Text → Bool
same_origin url_host origin referer host =
    let source = if is_empty origin then referer else origin in
    if is_empty source then true else is_host host (url_host source)

module _ (base_host : Text) (https : Bool) (url_parse : Text → Option ParsedUrl) where
  abbrev pub after_login : Text → Page
  after_login next = found (safe_next base_host https url_parse next)

  abbrev pub shown : Text → Result (Option Session) → Page
  shown next (ok (some s)) = after_login next
  shown next (ok none) = login_page [] next
  shown next (err e) = login_page [] next

  unfoldable pub get_login : Option Text → Text → M Page
  get_login cookie next = do session ← attempt (find cookie); pure (shown next session)

  module _ (url_host : Text → Option Text) (bcrypt : Bcrypt) (store : SessionStore)
      (ip : Text) where
    abbrev pub issued_page : LoginForm → Result Session → Page
    issued_page f (ok s) = after_login f.next
    issued_page f (err e) = server_error

    abbrev pub after_verify : Option Throttle → LoginForm → Result User → M (Option Throttle × Page)
    after_verify t f (err e) = do
      now ← get_now
      pure (failed t ip f.username now, login_page (text "invalid username or password") f.next)
    after_verify t f (ok user) = do
      session ← attempt (issue store user.id)
      pure (success t ip f.username, issued_page f session)

    abbrev pub refuse : LoginForm → Option Throttle × ℕ → M (Option Throttle × Page)
    refuse f r = pure (r.0, too_many r.1 f.next)

    abbrev pub allowed_post : LoginForm → Option Throttle × Bool → M (Option Throttle × Page)
    allowed_post f a = do
      now ← get_now
      branch (not a.1) (refuse f (retry_after a.0 ip f.username now))
          (do user ← attempt (verify bcrypt f.username f.password); after_verify a.0 f user)

    unfoldable pub post_login : Option Throttle → LoginForm → M (Option Throttle × Page)
    post_login t f =
        branch (not (same_origin url_host f.origin f.referer f.host)) (pure (t, forbidden)) (
          branch (not f.parsed) (pure (t, bad_request))
            (do now ← get_now; allowed_post f (allow t ip f.username now)))

-- The error of Revoke is thrown away.
unfoldable pub post_logout : SessionStore → Option Text → M Page
post_logout store cookie = do
  done ← attempt (revoke store cookie)
  pure (found (text "/portal/login"))
