-- ===== src/Portal/Gate.antt =====
-- internal/portal/gate.go: the gate before an app. url.QueryEscape is a parameter.
pub mod Identity
mod Tests
use nass.Common.{
  Bool, true, false, List, [], ◌∷◌, ◌++◌, Option, none, some, Text, text, is_empty, if◌then◌else◌,
  Dict, insert,
}
use nass.Db.Monad.{M, Result, ok, err, pure, attempt, ◌>>=◌}
use nass.Users.{User}
use nass.Sessions.{Session, find}
use nass.Proxy.{Request, identity_headers, drop_headers}

-- What the gate does with a request: it hands it on, redirects it, or answers with an error.
pub data Answer : Type 0 where
  forwards : Request → Answer
  redirects : Text → Answer
  fails : Answer

abbrev pub set_email_header : User → Dict Text → Dict Text
set_email_header u headers =
    if is_empty u.email then headers else insert (text "Remote-Email") u.email headers

abbrev pub set_groups_header : User → Dict Text → Dict Text
set_groups_header u headers =
    if u.is_admin then insert (text "Remote-Groups") (text "admin") headers else headers

-- The headers that tell the app who the user is.
abbrev pub set_identity : User → Dict Text → Dict Text
set_identity u headers = set_groups_header u (
    insert (text "Remote-Name") u.username
      (set_email_header u (insert (text "Remote-User") u.username headers)))

-- `tls` is `r.TLS != nil`, `uri` is r.URL.RequestURI().
abbrev pub request_url : Bool → Text → Text → Text
request_url tls host uri = (if tls then text "https" else text "http") ++ text "://" ++ host ++ uri

module _ (query_escape : Text → Text) (portal_url : Text) where
  abbrev pub login_url : Text → Text
  login_url next = portal_url ++ text "/portal/login?next=" ++ query_escape next

  abbrev pub answer : Bool → Text → Request → Result (Option Session) → Answer
  answer tls uri r (err e) = fails
  answer tls uri r (ok none) = redirects (login_url (request_url tls r.host uri))
  answer tls uri r (ok (some s)) =
      forwards
        (record r { headers = set_identity s.user (drop_headers identity_headers r.headers) })

  unfoldable pub wrap : Bool → Text → Option Text → Request → M Answer
  wrap tls uri cookie r = do found ← attempt (find cookie); pure (answer tls uri r found)
