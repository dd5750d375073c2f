-- ===== src/Users/Role.antt =====
-- SetAdmin of internal/auth/users.go: a demotion signs the user out, a promotion does not.
use nass.Common.{
  ℕ, ◌≡◌, refl, sym, ap, Bool, not, ◌&&◌, Option, none, some, List, [], ◌∷◌, ◌==◌, nat_eq_test,
  Bool-cases, inl, inr, if◌then◌else◌,
}
use nass.Db.{Db, UserRow}
use nass.Db.Rows.{update_where}
use nass.Db.Monad.{World, pure, branch, commits}
use nass.Db.Ensures.{
  Holds, Ensures, Anything, ensures-pure, ensures-fail, ensures-to, ensures-given, ensures-total,
  ensures-branch, ensures-tx, ensures-bind, ensures-now, ensures-exec,
}
use nass.Users.{set_role, find_user, set_admin, revoke_sessions, update_user, bool_int, scan_admin}
use nass.Users.Revoke.{
  IsSignedOut, SparesOthers, revoked, revoke_sessions-ensures, revoked-IsSignedOut,
  revoked-SparesOthers,
}

-- The row of user `id` has the role; every other row is as it was.
abbrev pub HasRole : ℕ → ℕ → List UserRow → List UserRow → Type 0
HasRole id role [] [] = Unit {0}
HasRole id role (u ∷ us) (u' ∷ us') =
    (if u.id == id then u'.is_admin ≡ role else u' ≡ u) × HasRole id role us us'
HasRole id role [] (u' ∷ us') = ⊥
HasRole id role (u ∷ us) [] = ⊥

HasRole-update :
    (id now : ℕ) (is_admin : Bool) (us : List UserRow)
    → HasRole id (bool_int is_admin) us (update_where (λ u. u.id == id) (set_role is_admin now) us)
HasRole-update id now is_admin [] = tt
HasRole-update id now is_admin (u ∷ us) = (
  elim (Bool-cases (u.id == id)) [ inl t ↦ rw t refl | inr t ↦ rw t refl ],
  HasRole-update id now is_admin us,
)

abbrev pub SameTokens : Db → Db → Type 0
SameTokens before db =
    (db.portal_sessions ≡ before.portal_sessions)
    × (db.oidc_access_tokens ≡ before.oidc_access_tokens)
    × (db.oidc_refresh_tokens ≡ before.oidc_refresh_tokens)

module _ (id : ℕ) (is_admin : Bool) where
  abbrev pub is_demotion : UserRow → Bool
  is_demotion u = not (u.is_admin == 0) && not is_admin

  -- The user exists and has the role; only a demotion has signed the user out.
  abbrev pub IsChanged : Db → Db → Type 0
  IsChanged before db =
      (u : UserRow) × (find_user id before ≡ some u)
      × HasRole id (bool_int is_admin) before.users db.users
      × (if is_demotion u
          then IsSignedOut id db × SparesOthers id before db
          else SameTokens before db)

  scan_admin-ensures :
      (n : ℕ) (before : Db) (row : Option UserRow)
      → Ensures n
          (λ db. (row ≡ find_user id before) × (db ≡ before))
          (scan_admin row)
          (λ was db.
            ((u : UserRow) × (find_user id before ≡ some u) × (was ≡ u.is_admin)) × (db ≡ before))
          Anything
  scan_admin-ensures n before none = ensures-fail _ (λ db p. tt)
  scan_admin-ensures n before (some u) = ensures-pure _ (λ db p. ((u, sym p.0, refl), p.1))

  -- The last statements of SetAdmin, with the row as it was read.
  revoke_if-ensures :
      (n was : ℕ) (u : UserRow) (before start : Db)
      → start ≡ before
      → find_user id start ≡ some u
      → was ≡ u.is_admin
      → Ensures n
          (λ db. db ≡ update_user id (set_role is_admin n) start)
          (branch (not (was == 0) && not is_admin) (revoke_sessions id) (pure tt))
          (λ _ db. IsChanged before db)
          Anything
  revoke_if-ensures n was u before start same found e =
      ensures-branch _ _ _
        (λ t.
          ensures-to (λ _ db. db ≡ revoked id (update_user id (set_role is_admin n) start)) Anything
            _
            (λ _ db q.
              rw (q, ← same)
                (
                  u,
                  found,
                  HasRole-update id n is_admin start.users,
                  rw (← e, t)
                      (
                        revoked-IsSignedOut id (update_user id (set_role is_admin n) start) _ refl,
                        revoked-SparesOthers id (update_user id (set_role is_admin n) start),
                      ),
                ))
            (λ db q. q) (revoke_sessions-ensures n id _))
        (λ t. ensures-pure tt (λ db q.
          rw (q, ← same)
            (u, found, HasRole-update id n is_admin start.users, rw (← e, t) (refl, refl, refl))))

  pub set_admin-ensures :
      (n : ℕ) (before : Db)
      → Ensures n
          (λ db. db ≡ before)
          (set_admin id is_admin)
          (λ _ db. IsChanged before db)
          (λ db. db ≡ before)
  unfolding set_admin
  set_admin-ensures n before =
      ensures-tx _
        (λ start p. ensures-now _ (
          ensures-bind _ _ _
            (ensures-total (find_user id) _ (λ db q. rw q (refl, refl)) (λ db q. tt))
            λ row. ensures-bind _ _ _ (scan_admin-ensures n start row) λ was.
              ensures-given _ (λ db q. q.0)
                λ (u, found, e).
                  ensures-exec _ _ (λ db. db ≡ update_user id (set_role is_admin n) start)
                    (λ db q. ap (update_user id (set_role is_admin n)) q.1) (λ db q. tt)
                    (ensures-bind _ _ _ (revoke_if-ensures n was u before start p found e)
                      λ _. ensures-pure (commits tt) (λ db q. q))))
        (λ db p. p)

  -- SetAdmin either reports an error, and then the database is as it was whichever of its
  -- statements failed, or it reports none: then the user exists and has the role, and no other
  -- account is changed. Where an administrator is demoted the user holds no session and no token
  -- and those of everybody else are still there; otherwise all sessions and tokens are as they were.
  pub set_admin-Holds :
      (w : World)
      → Holds w.now (λ _ db. IsChanged w.db db) (λ db. db ≡ w.db) (set_admin id is_admin w)
  set_admin-Holds w = (set_admin-ensures w.now w.db).at w refl refl
