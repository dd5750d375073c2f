-- ===== src/Portal/Administration/Admission.antt =====
-- requireAdmin of internal/portal/portal.go: what a handler behind it may rely on.
use nass.Common.{
  ◌∙◌, ◌==◌, nat_eq_test, nat_eq_iff, arith, ℕ, ◌≡◌, ap, true, Option, none, some, Text, inl, inr,
}
use nass.Db.{Db, UserRow}
use nass.Db.Rows.{find_if-holds}
use nass.Users.{User, user_of, find_user}
use nass.Db.Monad.{M, Result, ok, err}
use nass.Db.Ensures.{
  Ensures, Attempted, ensures-pure, ensures-bind, ensures-branch, ensures-attempt, ensures-given,
  ensures-from,
}
use nass.Sessions.{Session}
use nass.Sessions.Lookup.{IsSessionOf, IsFound, find-ensures}
use nass.Portal.Administration.{
  AdminPage, to_login, admin_required, server_error, admit, require_admin,
}

abbrev pub SameUsers : Db → Db → Type 0
SameUsers before db = db.users ≡ before.users

abbrev pub IsTurnedAway : AdminPage → Type 0
IsTurnedAway (to_login uri) = Unit {0}
IsTurnedAway admin_required = Unit {0}
IsTurnedAway (server_error e) = Unit {0}
IsTurnedAway page = ⊥

-- The account of a session, by the id that the session has of it.
pub session_account :
    (cookie : Text) (now : ℕ) (before : Db) (s : Session)
    → IsSessionOf cookie now before s
    → (u : UserRow) × (find_user s.user.id before ≡ some u) × (s.user ≡ user_of u)
session_account cookie now before s (row, stored, expires, same, live, user, found, told) =
    let row_id : (user.id == row.user_id) ≡ true =
      find_if-holds (λ u. u.id == row.user_id) before.users found in
    let own_id : s.user.id ≡ row.user_id =
      ap (λ (u : User). u.id) told ∙ (nat_eq_iff user.id row.user_id).0 row_id in
    (user, rw own_id found, told)

module _ (cookie uri : Text) where
  -- The cookie stands for a session of an administrator.
  abbrev pub IsAdmin : ℕ → Db → Session → Type 0
  IsAdmin now before s = IsSessionOf cookie now before s × (s.user.is_admin ≡ true)

  found_none : (n : ℕ) (before db : Db) → IsFound cookie n before none db → SameUsers before db
  found_none n before db (absent, inl e) = ap (λ d. d.users) e
  found_none n before db (absent, inr e) = ap (λ d. d.users) e

  module _ {n : ℕ} {before : Db} {Q : AdminPage → Db → Type 0} (rest : Session → M AdminPage)
      (away : (page : AdminPage) (db : Db) → IsTurnedAway page → SameUsers before db → Q page db)
      (admitted : (s : Session)
        → IsAdmin n before s
        → Ensures n (λ db. db ≡ before) (rest s) Q (λ db. ⊥)) where
    admit-ensures :
        (found : Result (Option Session))
        → Ensures n
            (Attempted (IsFound cookie n before) (λ db. db ≡ before) found)
            (admit uri rest found)
            Q
            (λ db. ⊥)
    admit-ensures (err e) =
        ensures-pure _ (λ db p. away (server_error e) db tt (ap (λ d. d.users) p))
    admit-ensures (ok none) =
        ensures-pure _ (λ db p. away (to_login uri) db tt (found_none n before db p))
    admit-ensures (ok (some s)) =
        ensures-branch _ _ _
          (λ t. ensures-pure _ (λ db p. away admin_required db tt (ap (λ d. d.users) p.1)))
          (λ t.
            ensures-given _ (λ db p. p.0)
              λ session. ensures-from _ _ (λ db p. p.1) (admitted s (session, ground (arith, t))))

    pub require_admin-ensures :
        Ensures n (λ db. db ≡ before) (require_admin (some cookie) uri rest) Q (λ db. ⊥)
    unfolding require_admin
    require_admin-ensures =
        ensures-bind _ _ _ (ensures-attempt _ (find-ensures cookie n before)) admit-ensures
