-- ===== src/Oidc/Login.antt =====
-- internal/auth/oidc/login.go: the login page of the OIDC provider. url.Parse and the callback of the
-- provider are parameters; the address of the client is given (ClientIP), as is its session cookie.
pub mod Completion
mod Tests
use nass.Common.{
  nat_eq_test, ℕ, Bool, true, false, not, Option, none, some, List, [], ◌∷◌, Text, text, is_empty,
  ◌==◌, text_eq_test, if◌then◌else◌,
}
use nass.Db.{Db}
use nass.Db.Monad.{M, Error, Result, ok, err, pure, fail, branch, get_now, attempt, ◌>>=◌, ◌>>◌}
use nass.Throttle.{Throttle, allow, failed, success, retry_after}
use nass.Users.{Bcrypt, User, verify}
use nass.Sessions.{Session, find}
use nass.Oidc.Requests.{mark_auth_request_complete}

-- What the browser gets: an error page, the form with a message, a redirect to the provider's callback for
-- the request, or one to the portal's login.
pub data Page : Type 0 where
  bad_request forbidden server_error : Page
  form : Text → Page
  too_many : ℕ → Page
  callback : Text → Page
  portal_login : Text → Page

-- `parsed` is whether ParseForm succeeds. Headers and fields that are absent are empty.
pub record Form : Type 0 where
  pub origin : Text
  pub referer : Text
  pub host : Text
  pub parsed : Bool
  pub id : Text
  pub username : Text
  pub password : Text

abbrev pub user_id_of : Option Session → ℕ
user_id_of none = 0
user_id_of (some s) = s.user.id

-- CurrentUserID of internal/portal/portal.go.
unfoldable pub current_user_id : Option Text → M ℕ
current_user_id cookie = do found ← find cookie; pure (user_id_of found)

abbrev pub completed_page : Text → Result (Unit {0}) → Page
completed_page id (ok done) = callback id
completed_page id (err e) = server_error

abbrev pub complete_for : Text → ℕ → M Page
complete_for id user = do
  done ← attempt (mark_auth_request_complete id user)
  pure (completed_page id done)

abbrev pub get_for : Text → Result ℕ → M Page
get_for id (err e) = pure server_error
get_for id (ok user) = branch (user == 0) (pure (portal_login id)) (complete_for id user)

-- `has_portal` is `l.portal != nil`.
unfoldable pub get_login : Bool → Option Text → Text → M Page
get_login has_portal cookie id = branch (is_empty id) (pure bad_request) (
    branch has_portal (do user ← attempt (current_user_id cookie); get_for id user)
      (pure (form [])))

module _ (url_host : Text → Option Text) where
  abbrev pub is_host : Text → Option Text → Bool
  is_host host none = false
  is_host host (some h) = h == host

  abbrev pub origin_of : Form → Text
  origin_of f = if is_empty f.origin then f.referer else f.origin

  -- `url_host` is the host of url.Parse, `none` where that fails.
  abbrev pub same_origin : Form → Bool
  same_origin f = if is_empty (origin_of f) then true else is_host f.host (url_host (origin_of f))

  module _ (bcrypt : Bcrypt) (ip : Text) where
    abbrev pub with_throttle : Option Throttle → M Page → M (Option Throttle × Page)
    with_throttle t m = do page ← m; pure (t, page)

    abbrev pub after_verify : Option Throttle → Form → Result User → M (Option Throttle × Page)
    after_verify t f (err e) = do
      now ← get_now
      pure (failed t ip f.username now, form (text "invalid username or password"))
    after_verify t f (ok user) = with_throttle (success t ip f.username) (complete_for f.id user.id)

    abbrev pub refuse : Option Throttle × ℕ → M (Option Throttle × Page)
    refuse r = pure (r.0, too_many r.1)

    abbrev pub allowed_post : Form → Option Throttle × Bool → M (Option Throttle × Page)
    allowed_post f a = do
      now ← get_now
      branch (not a.1) (refuse (retry_after a.0 ip f.username now))
          (do user ← attempt (verify bcrypt f.username f.password); after_verify a.0 f user)

    -- The throttle goes in and comes out: it is shared with the portal.
    unfoldable pub post_login : Option Throttle → Form → M (Option Throttle × Page)
    post_login t f = branch (not (same_origin f)) (pure (t, forbidden)) (
        branch (not f.parsed) (pure (t, bad_request)) (
          branch (is_empty f.id) (pure (t, bad_request))
            (do now ← get_now; allowed_post f (allow t ip f.username now))))
