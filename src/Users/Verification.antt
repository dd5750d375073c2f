-- ===== src/Users/Verification.antt =====
-- Verify of internal/auth/users.go: whom a password lets in.
use nass.Common.{
  ℕ, ◌≡◌, refl, sym, ap, true, Option, none, some, Text, ◌==◌, nat_eq_test, text_eq_test, find_if,
}
use mathlib.Core.Option.{some-injective}
use mathlib.Core.Option
use nass.Db.{Db, UserRow}
use nass.Db.Monad.{World}
use nass.Db.Ensures.{
  Holds, Ensures, ensures-pure, ensures-fail, ensures-given, ensures-total, ensures-branch,
  ensures-from, ensures-bind,
}
use nass.Users.{Bcrypt, User, user_of, scan_user, get_by_username, verify, check_hash}

module _ (bcrypt : Bcrypt) (username password : Text) where
  -- `u` is the account of that name, and its stored hash accepts the password.
  abbrev pub IsVerified : Db → User → Type 0
  IsVerified db u =
      (row : UserRow) × (find_if (λ v. v.username == username) db.users ≡ some row)
      × (bcrypt.accepts row.password_hash password ≡ true)
      × (u ≡ user_of row)

  scanned-ensures :
      (n : ℕ) (before : Db) (hash : Text) (found : Option UserRow)
      → bcrypt.accepts hash password ≡ true
      → find_if (λ v. v.username == username) before.users ≡ found
      → Option.map (λ u. u.password_hash) (find_if (λ v. v.username == username) before.users)
        ≡ some hash
      → Ensures n
          (λ db. (found ≡ find_if (λ v. v.username == username) before.users) × (db ≡ before))
          (scan_user found)
          (λ u db. IsVerified before u × (db ≡ before))
          (λ db. db ≡ before)
  scanned-ensures n before hash none a same e = ensures-fail _ (λ db p. p.1)
  scanned-ensures n before hash (some row) a same e =
      ensures-pure _ (λ db p. ((row, same, rw (some-injective _ _ (rw same at e)) a, refl), p.1))

  get_by_username-ensures :
      (n : ℕ) (before : Db) (hash : Text)
      → bcrypt.accepts hash password ≡ true
      → Option.map (λ u. u.password_hash) (find_if (λ v. v.username == username) before.users)
        ≡ some hash
      → Ensures n
          (λ db. db ≡ before)
          (get_by_username username)
          (λ u db. IsVerified before u × (db ≡ before))
          (λ db. db ≡ before)
  unfolding get_by_username
  get_by_username-ensures n before hash a e =
      ensures-bind
        (λ found db. (found ≡ find_if (λ v. v.username == username) before.users) × (db ≡ before)) _
        _ (ensures-total _ _ (λ db p. rw p (refl, refl)) (λ db p. p))
        λ found.
          ensures-given _ (λ db p. p.0) λ same. scanned-ensures n before hash found a (sym same) e

  check_hash-ensures :
      (n : ℕ) (before : Db) (o : Option Text)
      → Option.map (λ u. u.password_hash) (find_if (λ v. v.username == username) before.users) ≡ o
      → Ensures n
          (λ db. db ≡ before)
          (check_hash bcrypt username password o)
          (λ u db. IsVerified before u × (db ≡ before))
          (λ db. db ≡ before)
  check_hash-ensures n before none e = ensures-fail _ (λ db p. p)
  check_hash-ensures n before (some hash) e =
      ensures-branch _ _ _ (λ t. get_by_username-ensures n before hash t e)
        (λ t. ensures-fail _ (λ db p. p))

  pub verify-ensures :
      (n : ℕ) (before : Db)
      → Ensures n
          (λ db. db ≡ before)
          (verify bcrypt username password)
          (λ u db. IsVerified before u × (db ≡ before))
          (λ db. db ≡ before)
  unfolding verify
  verify-ensures n before =
      ensures-bind
        (λ found db. (found ≡ find_if (λ v. v.username == username) before.users) × (db ≡ before)) _
        _ (ensures-total _ _ (λ db p. rw p (refl, refl)) (λ db p. p))
        λ found.
          ensures-given _ (λ db p. p.0)
            λ same.
              ensures-from _ _ (λ db p. p.1)
                (check_hash-ensures n before _ (ap (Option.map (λ u. u.password_hash)) (sym same)))

  -- Verify never changes the database. Where it reports no error, it returns the account of that
  -- name, and the hash stored for it accepts the password.
  pub verify-Holds :
      (w : World)
      → Holds w.now
          (λ u db. IsVerified w.db u × (db ≡ w.db))
          (λ db. db ≡ w.db)
          (verify bcrypt username password w)
  verify-Holds w = (verify-ensures w.now w.db).at w refl refl
