-- ===== src/Users/Accounts.antt =====
-- Create of internal/auth/users.go: what a new account is.
use nass.Common.{
  ℕ, ◌+◌, ◌<◌, ◌≡◌, refl, ◌∙◌, Bool, true, false, Option, none, some, List, [], ◌∷◌, ◌++◌, Text,
  trim_space, ◌==◌, nat_eq_test, text_eq_test, text_eq_iff, All, find_if, any_of, arith,
}
use mathlib.Core.Option.{some-injective}
use nass.Db.{Db, UserRow}
use nass.Db.Rows.{NoRow, any_of-NoRow, find_if-append}
use nass.Db.Monad.{World}
use nass.Db.Ensures.{
  Holds, Ensures, Anything, ensures-pure, ensures-fail, ensures-to, ensures-constraint,
  ensures-map_error, ensures-given, ensures-total, ensures-branch, ensures-bind, ensures-now,
}
use nass.Users.{
  Bcrypt, User, user_of, new_row, scan_user, get, create, exists_error, exists_if_unique, null_str,
  bool_int,
}
use nass.Users.Password.{generate_hash-ensures}

-- Ids grow, and stay below the counter; no two rows share a username.
abbrev pub IsNewName : UserRow → List UserRow → Type 0
IsNewName u us = NoRow (λ v. v.username == u.username) us

abbrev pub HasUniqueNames : List UserRow → Type 0
HasUniqueNames [] = Unit {0}
HasUniqueNames (u ∷ us) = IsNewName u us × HasUniqueNames us

abbrev pub IsWellFormed : Db → Type 0
IsWellFormed db = All (λ u. u.id < db.next_user_id) db.users × HasUniqueNames db.users

NoRow-sym :
    (u : UserRow) (us : List UserRow) (v : UserRow)
    → IsNewName u us
    → (u.username == v.username) ≡ false
    → IsNewName u (us ++ v ∷ [])
NoRow-sym u [] v h k =
    ground (arith, text_eq_iff u.username v.username, text_eq_iff v.username u.username)
NoRow-sym u (x ∷ us) v h k = (h.0, NoRow-sym u us v h.1 k)

HasUniqueNames-append :
    (us : List UserRow) (v : UserRow)
    → HasUniqueNames us
    → IsNewName v us
    → HasUniqueNames (us ++ v ∷ [])
HasUniqueNames-append [] v h k = (tt, tt)
HasUniqueNames-append (u ∷ us) v h k =
    (NoRow-sym u us v h.0 k.0, HasUniqueNames-append us v h.1 k.1)

below-append :
    (n : ℕ) (us : List UserRow) (v : UserRow)
    → All (λ u. u.id < n) us
    → v.id ≡ n
    → All (λ u. u.id < n + 1) (us ++ v ∷ [])
below-append n [] v h e = (omega arith, tt)
below-append n (u ∷ us) v h e = (ground (arith, h.0), below-append n us v h.1 e)

below-NoRow : (n : ℕ) (us : List UserRow) → All (λ u. u.id < n) us → NoRow (λ u. u.id == n) us
below-NoRow n [] h = tt
below-NoRow n (u ∷ us) h = (ground (arith, h.0), below-NoRow n us h.1)

find_if-new :
    (n : ℕ) (us : List UserRow) (row : UserRow)
    → All (λ u. u.id < n) us
    → row.id ≡ n
    → find_if (λ u. u.id == n) (us ++ row ∷ []) ≡ some row
find_if-new n us row h e =
    find_if-append (λ u. u.id == n) us (row ∷ []) (below-NoRow n us h) ∙ ground (arith, e)

module _ (bcrypt : Bcrypt) (name password : Text) where
  -- `db` has one account more than `before`: the last, with the new name and a hash of the password.
  abbrev pub IsCreated : Text → Bool → Db → User → Db → Type 0
  IsCreated email is_admin before u db =
      (row : UserRow) × (u ≡ user_of row)
      × (db ≡ record before {
        next_user_id = before.next_user_id + 1;
        users = before.users ++ row ∷ [];
      })
      × (row.id ≡ before.next_user_id)
      × (row.username ≡ trim_space name)
      × (row.email ≡ null_str email)
      × (row.is_admin ≡ bool_int is_admin)
      × (bcrypt.accepts row.password_hash password ≡ true)
      × IsNewName row before.users

  insert_user-ok :
      (now : ℕ) (email hash : Text) (is_admin : Bool) (before : Db)
      → All (λ u. u.id < before.next_user_id) before.users
      → bcrypt.accepts hash password ≡ true
      → any_of (λ u. u.username == trim_space name) before.users ≡ false
      → let row =
          new_row before.next_user_id now
            (trim_space name)
            (null_str email)
            hash
            (bool_int is_admin) in
        (find_if (λ u. u.id == before.next_user_id) (before.users ++ row ∷ []) ≡ some row)
        × IsCreated email is_admin before (user_of row) (record before {
          next_user_id = before.next_user_id + 1;
          users = before.users ++ row ∷ [];
        })
  insert_user-ok now email hash is_admin before low accepted free = (
    find_if-new before.next_user_id before.users _ low refl,
    (_, refl, refl, refl, refl, refl, refl, accepted, any_of-NoRow _ before.users free),
  )

  insert_user-at :
      (now : ℕ) (email hash : Text) (is_admin : Bool) (before start : Db)
      → start ≡ before
      → All (λ u. u.id < before.next_user_id) before.users
      → bcrypt.accepts hash password ≡ true
      → any_of (λ u. u.username == trim_space name) start.users ≡ false
      → let row =
          new_row start.next_user_id now
            (trim_space name)
            (null_str email)
            hash
            (bool_int is_admin) in
        let row' =
          new_row before.next_user_id now
            (trim_space name)
            (null_str email)
            hash
            (bool_int is_admin) in
        (find_if (λ u. u.id == start.next_user_id) (start.users ++ row ∷ []) ≡ some row')
        × IsCreated email is_admin before (user_of row') (record start {
          next_user_id = start.next_user_id + 1;
          users = start.users ++ row ∷ [];
        })
  insert_user-at now email hash is_admin before start same low accepted free =
      rw same (insert_user-ok now email hash is_admin before low accepted (rw same at free))

  scan_user-ensures :
      (n : ℕ) (email : Text) (is_admin : Bool) (before : Db) (u : UserRow) (found : Option UserRow)
      → Ensures n
          (λ db. (found ≡ some u) × IsCreated email is_admin before (user_of u) db)
          (scan_user found)
          (IsCreated email is_admin before)
          Anything
  scan_user-ensures n email is_admin before u none = ensures-fail _ (λ db p. tt)
  scan_user-ensures n email is_admin before u (some v) =
      ensures-pure _ (λ db p. rw (some-injective v u p.0) p.1)

  create-ensures :
      (n : ℕ) (email : Text) (is_admin : Bool) (before : Db)
      → All (λ u. u.id < before.next_user_id) before.users
      → Ensures n
          (λ db. db ≡ before)
          (create bcrypt name email password is_admin)
          (IsCreated email is_admin before)
          Anything
  unfolding create exists_if_unique get
  create-ensures n email is_admin before low =
      ensures-branch _ _ _ (λ t. ensures-fail _ (λ db p. tt))
        λ t.
          ensures-branch _ _ _ (λ t. ensures-fail _ (λ db p. tt))
            λ t.
              ensures-bind _ _ _
                (ensures-to _ _ _ (λ hash db q. q) (λ db q. tt)
                  (generate_hash-ensures bcrypt password n (λ db. db ≡ before)))
                λ hash.
                  ensures-given _ (λ db p. p.0)
                    λ accepted. ensures-now _ (
                      ensures-bind
                        (λ id db.
                          let row =
                            new_row before.next_user_id n (trim_space name) (null_str email) hash
                              (bool_int is_admin) in
                          (find_if (λ u. u.id == id) db.users ≡ some row)
                          × IsCreated email is_admin before (user_of row) db)
                        _ _
                        (ensures-map_error exists_error _ (
                          ensures-constraint _ _ _ _
                            (λ start p t.
                              insert_user-at n email hash is_admin before start p.1 low accepted t)
                            (λ db p. tt)))
                        λ id.
                          ensures-bind _ _ _
                            (ensures-total (λ db. find_if (λ u. u.id == id) db.users) (λ db. db)
                              (λ db p. p) (λ db p. tt))
                            (scan_user-ensures n email is_admin before (
                              new_row before.next_user_id n (trim_space name) (null_str email) hash
                                (bool_int is_admin))))

  IsWellFormed-created :
      (email : Text) (is_admin : Bool) (before db : Db) (u : User)
      → IsWellFormed before
      → IsCreated email is_admin before u db
      → IsWellFormed db
  IsWellFormed-created email is_admin before db u wf (row, _, e, e', _, _, _, _, new) = rw e (
    below-append before.next_user_id before.users row wf.0 e',
    HasUniqueNames-append before.users row wf.1 new,
  )

  -- On a well-formed table of accounts, Create that reports no error has added one row and changed
  -- nothing else: the row has a fresh id, the trimmed name that no other row has, the role, and a
  -- hash that accepts the password; the table is well-formed again.
  pub create-Holds :
      (email : Text) (is_admin : Bool) (w : World)
      → IsWellFormed w.db
      → Holds w.now
          (λ u db. IsCreated email is_admin w.db u db × IsWellFormed db)
          Anything
          (create bcrypt name email password is_admin w)
  create-Holds email is_admin w wf =
      (ensures-to _ Anything _ (λ u db q. (q, IsWellFormed-created email is_admin w.db db u wf q))
          (λ db q. tt) (create-ensures w.now email is_admin w.db wf.0)).at
        w refl refl
