-- ===== src/Users/Tests.antt =====
-- The user accounts at concrete inputs.
use nass.Common.{
  ℕ, ◌≡◌, refl, Bool, true, false, none, some, [], ◌∷◌, Text, text, text_eq, text_eq_refl,
  trim_space, leb, arith,
}
use mathlib.Core.Option.{some-injective}
use nass.Db.{Db, UserRow, SessionRow, empty_db}
use nass.Db.Monad.{
  World, sql, with_tx, ◌>>=◌, map_error, ok, err, user_exists, bad_password, db_error,
}
use nass.Db.Ensures.{Holds, Anything}
use nass.Users.{
  Bcrypt, new_row, create, verify, set_password, set_admin, revoke_sessions, get_by_username,
  generate_hash, exists_if_unique, get,
}
use nass.Users.Role.{IsChanged, set_admin-Holds}
use nass.Users.Accounts.{IsCreated, IsWellFormed, create-Holds}
use nass.Users.Verification.{IsVerified, verify-Holds}

abbrev plain_accepts : Text → Text → Bool
plain_accepts [] password = false
plain_accepts (salt ∷ hash) password = text_eq hash password

plain_accepts-own :
    (salt : ℕ) (password hash : Text)
    → some (salt ∷ password) ≡ some hash
    → plain_accepts hash password ≡ true
plain_accepts-own salt password hash e =
    rw (← some-injective (salt ∷ password) hash e) (text_eq_refl password)

-- A hash that is the salt followed by the password.
abbrev plain : Bcrypt
plain = record {
  generate = λ salt password. some (salt ∷ password);
  accepts = plain_accepts;
  accepts_own = plain_accepts-own;
}

abbrev ada : UserRow
ada = new_row 1 10 (text "ada") none (7 ∷ text "analytical") 1

abbrev bob : UserRow
bob = new_row 2 20 (text "bob") none (8 ∷ text "brickwork") 0

abbrev session_of : ℕ → SessionRow
session_of id = record { id = id ∷ []; user_id = id; expires_at = 900 }

abbrev accounts : Db
accounts = record empty_db {
  users = ada ∷ bob ∷ [];
  next_user_id = 3;
  portal_sessions = session_of 1 ∷ session_of 2 ∷ [];
}

abbrev home : World
home = record {
  db = accounts;
  now = 100;
  calls = 0;
  fault = λ n. false;
  drawn = 0;
  fresh = λ n. n ∷ [];
  cookies = [];
}

-- A world in which call `n` of the database fails.
abbrev failing_at : ℕ → World
failing_at n = record home { fault = λ k. leb n k }

users : Unit {0}
unfolding create verify set_password set_admin revoke_sessions get get_by_username generate_hash
    exists_if_unique sql with_tx ◌>>=◌ map_error text_eq trim_space
users = tt

accounts-IsWellFormed : IsWellFormed accounts
unfolding text_eq
accounts-IsWellFormed = ((omega arith, (omega arith, tt)), ((refl, tt), (tt, tt)))

reset_commits : (set_password plain 2 (text "new-password") home).0 ≡ ok tt
unfolding users
reset_commits = refl

reset_rolled_back : (set_password plain 2 (text "new-password") (failing_at 3)).0 ≡ err db_error
unfolding users
reset_rolled_back = refl

set_admin-Holds_example :
    Holds 100 (λ _ db. IsChanged 1 false accounts db) (λ db. db ≡ accounts) (set_admin 1 false home)
set_admin-Holds_example = set_admin-Holds 1 false home

create-Holds_example :
    Holds 100
      (λ u db.
        IsCreated plain (text " eve ") (text "garden-gate") [] false accounts u db
        × IsWellFormed db)
      Anything
      (create plain (text " eve ") [] (text "garden-gate") false home)
create-Holds_example =
    create-Holds plain (text " eve ") (text "garden-gate") [] false home accounts-IsWellFormed

verify-Holds_example :
    Holds 100
      (λ u db. IsVerified plain (text "ada") (text "analytical") accounts u × (db ≡ accounts))
      (λ db. db ≡ accounts)
      (verify plain (text "ada") (text "analytical") home)
verify-Holds_example = verify-Holds plain (text "ada") (text "analytical") home

abbrev eve : UserRow
eve = new_row 3 100 (text "eve") none (0 ∷ text "garden-gate") 0

abbrev after_eve : World
after_eve = record home { db = record accounts { users = ada ∷ bob ∷ eve ∷ []; next_user_id = 4 } }

wrong_password : (verify plain (text "ada") (text "other") home).0 ≡ err bad_password
unfolding users
wrong_password = refl

taken_name : (create plain (text "ada") [] (text "garden-gate") false home).0 ≡ err user_exists
unfolding users
taken_name = refl
