-- ===== src/Sessions/Lookup.antt =====
-- Lookup of internal/portal/session.go: which session a cookie stands for.
use nass.Common.{
  ℕ, ◌<◌, ◌≤◌, ◌≡◌, refl, ap, Option, none, some, Text, text_eq_test, nat_eq_test, inl, inr, ◌⊎◌,
  arith,
}
use nass.Db.{Db, UserRow, SessionRow}
use nass.Db.Monad.{World}
use nass.Db.Ensures.{
  ensures-query, Holds, Ensures, ensures-pure, ensures-branch, ensures-bind, ensures-now,
  ensures-ignore, ensures-exec_last,
}
use nass.Users.{user_of, find_user}
use nass.Users.Lookup.{get-ensures}
use nass.Sessions.{Session, find, resolve, find_session, delete_session}

module _ (cookie : Text) where
  -- The cookie stands for the session `s` at time `now`: its row is there and has not expired, and
  -- the user is the account that the row names.
  abbrev pub IsSessionOf : ℕ → Db → Session → Type 0
  IsSessionOf now db s =
      (row : SessionRow) × (find_session cookie db ≡ some row)
      × (row.expires_at ≡ s.expires)
      × (s.id ≡ cookie)
      × (now ≤ s.expires)
      × (user : UserRow) × (find_user row.user_id db ≡ some user)
      × (s.user ≡ user_of user)

  -- No row has the cookie as its id, or the row has expired.
  abbrev pub IsNoSession : ℕ → Db → Type 0
  IsNoSession now db =
      (find_session cookie db ≡ none)
      ⊎ ((row : SessionRow) × (find_session cookie db ≡ some row) × (row.expires_at < now))

  abbrev pub IsFound : ℕ → Db → Option Session → Db → Type 0
  IsFound now before none db =
      IsNoSession now before × ((db ≡ before) ⊎ (db ≡ delete_session cookie before))
  IsFound now before (some s) db = IsSessionOf now before s × (db ≡ before)

  resolve-ensures :
      (n : ℕ) (before : Db) (found : Option SessionRow)
      → find_session cookie before ≡ found
      → Ensures n (λ db. db ≡ before) (resolve cookie found) (IsFound n before) (λ db. db ≡ before)
  resolve-ensures n before none e = ensures-pure _ (λ db p. (inl e, inl p))
  resolve-ensures n before (some s) e = ensures-now _ (
      ensures-branch _ _ _
        (λ t.
          ensures-bind (λ _ db. (db ≡ before) ⊎ (db ≡ delete_session cookie before)) _ _
            (ensures-ignore _
              (ensures-exec_last _ (λ db p. inr (ap (delete_session cookie) p)) (λ db p. inl p)))
            λ _. ensures-pure _ (λ db p. (inr (s, e, ground (arith, t)), p)))
        (λ t. ensures-bind _ _ _ (get-ensures n s.user_id before) λ u.
          ensures-pure _ (λ db ((row, found, same), p).
            ((s, e, refl, refl, ground (arith, t), row, found, same), p))))

  pub find-ensures :
      (n : ℕ) (before : Db)
      → Ensures n (λ db. db ≡ before) (find (some cookie)) (IsFound n before) (λ db. db ≡ before)
  unfolding find
  find-ensures n before = ensures-query _ _ refl λ found e. resolve-ensures n before found e

  -- Lookup returns a session only for a cookie whose row is in the database and has not expired, with
  -- the account that the row names, and then it changes nothing. It returns none only where there
  -- is no such row or the row has expired, and it deletes nothing but rows of that id. An error
  -- leaves the database as it was.
  pub find-Holds :
      (w : World) → Holds w.now (IsFound w.now w.db) (λ db. db ≡ w.db) (find (some cookie) w)
  find-Holds w = (find-ensures w.now w.db).at w refl refl
