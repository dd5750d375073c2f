-- ===== src/Portal/Administration.antt =====
-- internal/portal/admin.go: the administration of the accounts. url.Parse of an origin is a parameter. A
-- redirect to the page keeps its message, and the error in it, as data.
pub mod Admission
pub mod Deletion
pub mod LastAdmin
pub mod NewPassword
mod Tests
use nass.Common.{
  ◌&&◌, ℕ, zero, suc, ◌+◌, Bool, true, false, not, ◌||◌, Option, none, some, List, [], ◌∷◌, Text,
  text, ltb, ◌==◌, text_eq_test, nat_eq_test, if◌then◌else◌, parse_int, Int64, nonnegative,
  negative,
}
use nass.Db.Monad.{M, Error, Result, ok, err, pure, branch, attempt, ◌>>=◌}
use nass.Users.{Bcrypt, User, create, list, set_email, set_admin, set_password, delete}
use nass.Sessions.{Session, SessionStore, find, issue}
use nass.Portal.Login.{same_origin}

-- `flashes` and `reports` are the redirects of redirectAdmin; `reports_error` ends with the error's text.
pub data AdminPage : Type 0 where
  to_login : Text → AdminPage
  admin_required cross_origin bad_form invalid_user_id : AdminPage
  server_error : Error → AdminPage
  flashes reports : Text → AdminPage
  reports_error : Text → Error → AdminPage

-- What the handlers read of a request; `id` is in its path.
pub record UserForm : Type 0 where
  pub origin : Text
  pub referer : Text
  pub host : Text
  pub uri : Text
  pub id : Text
  pub parsed : Bool
  pub username : Text
  pub email : Text
  pub password : Text
  pub is_admin : Text

-- requireSession and requireAdmin, before the rest of a handler.
abbrev pub admit : Text → (Session → M AdminPage) → Result (Option Session) → M AdminPage
admit uri rest (err e) = pure (server_error e)
admit uri rest (ok none) = pure (to_login uri)
admit uri rest (ok (some s)) = branch (not s.user.is_admin) (pure admin_required) (rest s)

unfoldable pub require_admin : Option Text → Text → (Session → M AdminPage) → M AdminPage
require_admin cookie uri rest = do found ← attempt (find cookie); admit uri rest found

abbrev pub positive : Option Int64 → Option ℕ
positive (some (nonnegative (suc n))) = some (suc n)
positive (some (nonnegative zero)) = none
positive (some (negative n)) = none
positive none = none

abbrev pub user_id_from_path : Text → Option ℕ
user_id_from_path path = positive (parse_int path)

abbrev pub with_id : Option ℕ → (ℕ → M AdminPage) → M AdminPage
with_id none rest = pure invalid_user_id
with_id (some id) rest = rest id

-- The loop of canRemoveAdmin, with the number of administrators and the role of the account.
unfoldable pub tally : ℕ → List User → ℕ → Bool → ℕ × Bool
tally id [] admins target = (admins, target)
tally id (u ∷ us) admins target =
    tally id us (if u.is_admin then admins + 1 else admins)
      (if u.id == id then u.is_admin else target)

abbrev pub may_go : ℕ × Bool → Bool
may_go counted = not counted.1 || ltb 1 counted.0

unfoldable pub can_remove_admin : ℕ → M Bool
can_remove_admin id = do users ← list; pure (may_go (tally id users 0 false))

-- The page after a step that may fail.
abbrev pub flash_or : {A : Type 0} → Text → Text → Result A → AdminPage
flash_or done failed (ok a) = flashes done
flash_or done failed (err e) = reports_error failed e

-- What an account's removal as an administrator waits for.
abbrev pub if_removable : Text → M AdminPage → Result Bool → M AdminPage
if_removable refusal rest (err e) = pure (reports_error [] e)
if_removable refusal rest (ok b) = branch (not b) (pure (reports refusal)) rest

module _ (url_host : Text → Option Text) (cookie : Option Text) (f : UserForm) where
  abbrev pub checked_origin : M AdminPage → M AdminPage
  checked_origin rest =
      branch (not (same_origin url_host f.origin f.referer f.host)) (pure cross_origin) rest

  abbrev pub checked_form : M AdminPage → M AdminPage
  checked_form rest = checked_origin (branch (not f.parsed) (pure bad_form) rest)

  abbrev pub asks_admin : Bool
  asks_admin = f.is_admin == text "1"

  abbrev pub created : Result User → AdminPage
  created = flash_or (text "created user") (text "create user failed: ")

  unfoldable pub post_create_user : Bcrypt → M AdminPage
  post_create_user bcrypt = require_admin cookie f.uri λ s. checked_form (do
    user ← attempt (create bcrypt f.username f.email f.password asks_admin)
    pure (created user))

  abbrev pub update_role : ℕ → Result (Unit {0}) → M AdminPage
  update_role id (err e) = pure (reports_error (text "update email failed: ") e)
  update_role id (ok done) = do
    role ← attempt (set_admin id asks_admin)
    pure (flash_or (text "updated user") (text "update role failed: ") role)

  abbrev pub update_account : ℕ → M AdminPage
  update_account id = do email ← attempt (set_email id f.email); update_role id email

  abbrev pub update_unless_last : ℕ → M AdminPage
  update_unless_last id =
      branch (not asks_admin)
        (do
          allowed ← attempt (can_remove_admin id)
          if_removable (text "cannot remove the last admin") (update_account id) allowed)
        (update_account id)

  unfoldable pub post_update_user : M AdminPage
  post_update_user = require_admin cookie f.uri λ s. checked_form (
      with_id (user_id_from_path f.id) λ id.
        branch ((id == s.user.id) && not asks_admin)
          (pure (reports (text "cannot remove admin from your own account")))
          (update_unless_last id))

  abbrev pub reissued : Result Session → AdminPage
  reissued =
      flash_or (text "updated password")
        (text "password updated, but re-issuing your session failed: ")

  -- A new session for an administrator who has changed the own password.
  abbrev pub reissue : SessionStore → ℕ → Session → Result (Unit {0}) → M AdminPage
  reissue store id s (err e) = pure (reports_error (text "set password failed: ") e)
  reissue store id s (ok done) =
      branch (id == s.user.id) (do session ← attempt (issue store id); pure (reissued session))
        (pure (flashes (text "updated password")))

  unfoldable pub post_set_user_password : Bcrypt → SessionStore → M AdminPage
  post_set_user_password bcrypt store = require_admin cookie f.uri λ s. checked_form (
      with_id (user_id_from_path f.id)
        λ id. (do done ← attempt (set_password bcrypt id f.password); reissue store id s done))

  abbrev pub delete_account : ℕ → M AdminPage
  delete_account id = do
    done ← attempt (delete id)
    pure (flash_or (text "deleted user") (text "delete user failed: ") done)

  abbrev pub delete_other : Session → ℕ → M AdminPage
  delete_other s id =
      branch (id == s.user.id) (pure (reports (text "cannot delete your own account"))) (do
        allowed ← attempt (can_remove_admin id)
        if_removable (text "cannot delete the last admin") (delete_account id) allowed)

  unfoldable pub post_delete_user : M AdminPage
  post_delete_user =
      require_admin cookie f.uri
        λ s. checked_origin (with_id (user_id_from_path f.id) (delete_other s))
