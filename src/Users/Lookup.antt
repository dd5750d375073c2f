-- ===== src/Users/Lookup.antt =====
-- Get of internal/auth/users.go, as the other parts use it.
use nass.Common.{ℕ, ◌≡◌, refl, Option, none, some, text_eq_test, nat_eq_test}
use nass.Db.{Db, UserRow}
use nass.Db.Ensures.{ensures-query, Ensures, ensures-pure, ensures-fail}
use nass.Users.{user_of, scan_user, get, find_user}

scan_user-ensures :
    (n id : ℕ) (before : Db) (found : Option UserRow)
    → find_user id before ≡ found
    → Ensures n
        (λ db. db ≡ before)
        (scan_user found)
        (λ u db.
          ((row : UserRow) × (find_user id before ≡ some row) × (u ≡ user_of row)) × (db ≡ before))
        (λ db. db ≡ before)
scan_user-ensures n id before none e = ensures-fail _ (λ db p. p)
scan_user-ensures n id before (some row) e = ensures-pure _ (λ db p. ((row, e, refl), p))

pub get-ensures :
    (n id : ℕ) (before : Db)
    → Ensures n
        (λ db. db ≡ before)
        (get id)
        (λ u db.
          ((row : UserRow) × (find_user id before ≡ some row) × (u ≡ user_of row)) × (db ≡ before))
        (λ db. db ≡ before)
unfolding get
get-ensures n id before = ensures-query _ _ refl λ found e. scan_user-ensures n id before found e
