-- ===== src/Portal/Administration/NewPassword.antt =====
-- postSetUserPassword of internal/portal/admin.go: who may set whose password.
use nass.Common.{ℕ, ◌≡◌, true, Option, some, Text, ◌==◌, nat_eq_test, if◌then◌else◌}
use nass.Db.{Db}
use nass.Db.Monad.{◌>>=◌}
use nass.Db.Ensures.{Ensures}
use nass.Users.{Bcrypt}
use nass.Users.Password.{IsReset}
use nass.Sessions.{Session, SessionStore}
use nass.Sessions.Signin.{IsIssued}
use nass.Portal.Login.{same_origin}
use nass.Portal.Administration.{AdminPage, flashes, reports_error, UserForm, user_id_from_path}
use nass.Portal.Administration.Admission.{SameUsers, IsAdmin}

module _ (url_host : Text → Option Text) (cookie : Text) (f : UserForm) (bcrypt : Bcrypt)
    (store : SessionStore) (n : ℕ) (before : Db) where
  -- `mid` is the database after SetPassword: then only an administrator who has changed the own
  -- password gets a new session.
  abbrev pub IsRenewed : ℕ → Session → Db → Type 0
  IsRenewed id s db =
      (mid : Db) × IsReset bcrypt id f.password before mid
      × (if id == s.user.id then ((new : Session) × IsIssued store id n mid new db) else (db ≡ mid))

  abbrev pub IsReply : AdminPage → Db → Type 0
  IsReply (flashes m) db =
      (s : Session) × IsAdmin cookie f.uri n before s
      × (same_origin url_host f.origin f.referer f.host ≡ true)
      × (id : ℕ) × (user_id_from_path f.id ≡ some id)
      × IsRenewed id s db
  IsReply (reports_error m e) db = Unit {0}
  IsReply page db = SameUsers before db
