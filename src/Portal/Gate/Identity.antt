-- ===== src/Portal/Gate/Identity.antt =====
-- The identity headers that an app behind the gate of internal/portal/gate.go sees.
use nass.Common.{
  ℕ, ◌≡◌, Bool, false, none, some, Text, text, ◌==◌, text_eq_test, any_of, is_empty, if◌then◌else◌,
  Dict, lookup,
}
use nass.Db.{Db}
use nass.Db.Ensures.{Ensures}
use nass.Users.{User}
use nass.Sessions.{Session}
use nass.Sessions.Lookup.{IsNoSession, IsSessionOf}
use nass.Proxy.{Request, identity_headers}
use nass.Portal.Gate.{Answer, forwards, redirects, fails, login_url, request_url}

-- What the app is told: the user's name, address and role, where they are to be told, and no more.
abbrev pub TellsOf : User → Dict Text → Dict Text → Type 0
TellsOf u sent headers =
    (lookup (text "Remote-User") headers ≡ some u.username)
    × (lookup (text "Remote-Name") headers ≡ some u.username)
    × (lookup (text "Remote-Email") headers ≡ (if is_empty u.email then none else some u.email))
    × (lookup (text "Remote-Groups") headers ≡ (if u.is_admin then some (text "admin") else none))
    × ((name : Text)
        → any_of (λ n. n == name) identity_headers ≡ false
        → lookup name headers ≡ lookup name sent)

module _ (query_escape : Text → Text) (portal_url : Text) (tls : Bool) (uri : Text) (cookie : Text)
    (r : Request) where
  -- What the app sees is the request, with the identity headers of a session that the cookie stands for.
  abbrev pub IsAnswered : ℕ → Db → Answer → Type 0
  IsAnswered now before (forwards r') =
      (s : Session) × IsSessionOf cookie now before s
      × (r'.host ≡ r.host)
      × TellsOf s.user r.headers r'.headers
  IsAnswered now before (redirects url) =
      IsNoSession cookie now before
      × (url ≡ login_url query_escape portal_url (request_url tls r.host uri))
  IsAnswered now before fails = Unit {0}
