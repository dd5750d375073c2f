-- ===== src/Portal/Login/Signin.antt =====
-- Who gets a session through internal/portal/login.go, and where it leads.
use nass.Common.{ℕ, ◌≡◌, Bool, true, Option, Text}
use nass.Db.{Db}
use nass.Db.Ensures.{Ensures}
use nass.Throttle.{Throttle, allow}
use nass.Users.{Bcrypt, User}
use nass.Users.Verification.{IsVerified}
use nass.Sessions.{Session, SessionStore}
use nass.Sessions.Signin.{IsIssued}
use nass.Portal.Navigation.{ParsedUrl}
use nass.Portal.Navigation.Safety.{IsSafe}
use nass.Portal.Login.{Page, server_error, found, LoginForm}

module _ (base_host : Text) (https : Bool) (url_parse : Text → Option ParsedUrl)
    (url_host : Text → Option Text) (bcrypt : Bcrypt) (store : SessionStore) (ip : Text)
    (f : LoginForm) where
  -- The throttle let the attempt pass, the password is that of the account, a session for it was issued,
  -- and the redirect is a safe one.
  abbrev pub IsSignedIn : Option Throttle → ℕ → Text → Db → Db → Type 0
  IsSignedIn t now url before db =
      ((allow t ip f.username now).1 ≡ true)
      × IsSafe base_host https url_parse f.next url
      × (u : User) × IsVerified bcrypt f.username f.password before u
      × (s : Session) × IsIssued store u.id now before s db

  -- The page, and what has become of the database.
  abbrev pub IsReply : Option Throttle → ℕ → Page → Db → Db → Type 0
  IsReply t now (found url) before db = IsSignedIn t now url before db
  IsReply t now server_error before db =
      (u : User) × IsVerified bcrypt f.username f.password before u
  IsReply t now page before db = db ≡ before
