-- ===== src/Users.antt =====
-- internal/auth/users.go: the user accounts. bcrypt is a package of its own, and a parameter.
pub mod Revoke
pub mod Password
pub mod Role
pub mod Accounts
pub mod Verification
pub mod Lookup
mod Tests
use nass.Common.{
  ℕ, ◌+◌, ◌≡◌, Bool, true, false, not, ◌&&◌, Option, none, some, List, [], ◌∷◌, ◌++◌, map, Text,
  text, trim_space, is_empty, length, ltb, ◌==◌, text_eq_test, nat_eq_test, if◌then◌else◌, find_if,
  any_of,
}
use mathlib.Core.Option
use nass.Db.{Db, UserRow, SessionRow, AccessTokenRow, RefreshTokenRow}
use nass.Db.Rows.{delete_where, update_where}
use nass.Db.Monad.{
  Error, unique_error, user_not_found, user_exists, bad_password, username_required,
  password_too_short, bcrypt_error, Result, ok, err, World, M, pure, fail, branch, map_error, ◌>>=◌,
  ◌>>◌, sql, exec, query, Ends, commits, returns, with_tx, get_now,
}

-- golang.org/x/crypto/bcrypt. The hash of a password depends on a salt, which is drawn.
pub record Bcrypt : Type 0 where
  pub generate : ℕ → Text → Option Text
  pub accepts : Text → Text → Bool
  pub accepts_own :
      (salt : ℕ) (password hash : Text)
      → generate salt password ≡ some hash
      → accepts hash password ≡ true

pub record User : Type 0 where
  pub id : ℕ
  pub username : Text
  pub email : Text
  pub is_admin : Bool
  pub created_at : ℕ
  pub updated_at : ℕ

abbrev pub null_str : Text → Option Text
null_str [] = none
null_str (c ∷ s) = some (c ∷ s)

abbrev pub bool_int : Bool → ℕ
bool_int true = 1
bool_int false = 0

-- `COALESCE(email, '')`
abbrev pub coalesce : Option Text → Text
coalesce none = []
coalesce (some s) = s

abbrev pub user_of : UserRow → User
user_of r = record {
  id = r.id;
  username = r.username;
  email = coalesce r.email;
  is_admin = not (r.is_admin == 0);
  created_at = r.created_at;
  updated_at = r.updated_at;
}

abbrev pub scan_user : Option UserRow → M User
scan_user none = fail user_not_found
scan_user (some r) = pure (user_of r)

unfoldable pub get : ℕ → M User
get id = do row ← query (λ db. find_if (λ u. u.id == id) db.users); scan_user row

unfoldable pub get_by_username : Text → M User
get_by_username username = do
  row ← query (λ db. find_if (λ u. u.username == username) db.users)
  scan_user row

abbrev pub new_row : ℕ → ℕ → Text → Option Text → Text → ℕ → UserRow
new_row id now username email hash is_admin = record {
  id = id;
  username = username;
  email = email;
  password_hash = hash;
  is_admin = is_admin;
  created_at = now;
  updated_at = now;
}

abbrev pub insert_user : ℕ → Text → Option Text → Text → ℕ → Db → Result (ℕ × Db)
insert_user now username email hash is_admin db =
    if any_of (λ u. u.username == username) db.users
    then err unique_error
    else ok (
      db.next_user_id,
      record db {
        next_user_id = db.next_user_id + 1;
        users = db.users ++ new_row db.next_user_id now username email hash is_admin ∷ [];
      },
    )

-- `if strings.Contains(err.Error(), "UNIQUE") { return nil, ErrUserExists }`
abbrev pub exists_error : Error → Error
exists_error unique_error = user_exists
exists_error e = e

unfoldable pub exists_if_unique : {A : Type 0} → M A → M A
exists_if_unique = map_error exists_error

abbrev pub update_user : ℕ → (UserRow → UserRow) → Db → Db
update_user id f db = record db { users = update_where (λ u. u.id == id) f db.users }

-- `RowsAffected` of that UPDATE is not 0.
abbrev pub has_user : ℕ → Db → Bool
has_user id db = any_of (λ u. u.id == id) db.users

-- `UPDATE users SET … WHERE id = ?`, with ErrUserNotFound where no row is affected.
abbrev pub update_existing : ℕ → (UserRow → UserRow) → M (Unit {0})
update_existing id f = do
  affected ← sql (λ db. ok (has_user id db, update_user id f db))
  branch affected (pure tt) (fail user_not_found)

unfoldable pub set_email : ℕ → Text → M (Unit {0})
set_email id email = do
  now ← get_now
  update_existing id (λ u. record u { email = null_str (trim_space email); updated_at = now })

abbrev pub delete_sessions_of : ℕ → Db → Db
delete_sessions_of id db = record db {
  portal_sessions = delete_where (λ (s : SessionRow). s.user_id == id) db.portal_sessions;
}

abbrev pub delete_access_tokens_of : ℕ → Db → Db
delete_access_tokens_of id db = record db {
  oidc_access_tokens = delete_where (λ (t : AccessTokenRow). t.user_id == id) db.oidc_access_tokens;
}

abbrev pub delete_refresh_tokens_of : ℕ → Db → Db
delete_refresh_tokens_of id db = record db {
  oidc_refresh_tokens =
      delete_where (λ (t : RefreshTokenRow). t.user_id == id) db.oidc_refresh_tokens;
}

-- The three rounds of the loop over the tables, within the caller's transaction.
unfoldable pub revoke_sessions : ℕ → M (Unit {0})
revoke_sessions id = do
  exec (delete_sessions_of id)
  exec (delete_access_tokens_of id)
  exec (delete_refresh_tokens_of id)

abbrev pub scan_admin : Option UserRow → M ℕ
scan_admin none = fail user_not_found
scan_admin (some u) = pure u.is_admin

-- What SetAdmin writes into a row.
abbrev pub set_role : Bool → ℕ → UserRow → UserRow
set_role is_admin now u = record u { is_admin = bool_int is_admin; updated_at = now }

abbrev pub find_user : ℕ → Db → Option UserRow
find_user id db = find_if (λ u. u.id == id) db.users

unfoldable pub set_admin : ℕ → Bool → M (Unit {0})
set_admin id is_admin = with_tx (do
  now ← get_now
  row ← query (find_user id)
  was_admin ← scan_admin row
  exec (update_user id (set_role is_admin now))
  branch (not (was_admin == 0) && not is_admin) (revoke_sessions id) (pure tt)
  pure (commits tt))

-- DELETE FROM users, with the rows that reference the user: ON DELETE CASCADE.
abbrev pub delete_user : ℕ → Db → Db
delete_user id db = delete_sessions_of id (
    delete_access_tokens_of id
      (delete_refresh_tokens_of id (record db { users = delete_where (λ u. u.id == id) db.users })))

unfoldable pub delete : ℕ → M (Unit {0})
delete id = do
  affected ← sql (λ db. ok (has_user id db, delete_user id db))
  branch affected (pure tt) (fail user_not_found)

-- `ORDER BY id` is the order of the rows, since ids grow.
unfoldable pub list : M (List User)
list = query (λ db. map user_of db.users)

abbrev pub hashed : World → Option Text → Result Text × World
hashed w none = (err bcrypt_error, w)
hashed w (some hash) = (ok hash, record w { drawn = w.drawn + 1 })

-- What SetPassword writes into a row.
abbrev pub set_hash : Text → ℕ → UserRow → UserRow
set_hash hash now u = record u { password_hash = hash; updated_at = now }

module _ (bcrypt : Bcrypt) where
  -- bcrypt.GenerateFromPassword with a fresh salt.
  unfoldable pub generate_hash : Text → M Text
  generate_hash password w = hashed w (bcrypt.generate w.drawn password)

  unfoldable pub create : Text → Text → Text → Bool → M User
  create name email password is_admin =
      let username = trim_space name in
      branch (is_empty username) (fail username_required) (
        branch (ltb (length password) 8) (fail password_too_short) (do
          hash ← generate_hash password
          now ← get_now
          id ←
              exists_if_unique
                (sql (insert_user now username (null_str email) hash (bool_int is_admin)))
          get id))

  abbrev pub check_hash : Text → Text → Option Text → M User
  check_hash username password none = fail user_not_found
  check_hash username password (some hash) =
      branch (bcrypt.accepts hash password) (get_by_username username) (fail bad_password)

  -- The comparison with the dummy hash is for the time that it takes, and has no result.
  unfoldable pub verify : Text → Text → M User
  verify username password = do
    row ← query (λ db. find_if (λ u. u.username == username) db.users)
    check_hash username password (Option.map (λ u. u.password_hash) row)

  unfoldable pub set_password : ℕ → Text → M (Unit {0})
  set_password id password = branch (ltb (length password) 8) (fail password_too_short) (do
    hash ← generate_hash password
    with_tx (do
      now ← get_now
      update_existing id (set_hash hash now)
      revoke_sessions id
      pure (commits tt)))
