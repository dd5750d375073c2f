-- ===== src/Users/Password.antt =====
-- SetPassword of internal/auth/users.go: the new password, and everybody out.
use nass.Common.{
  ℕ, ◌≡◌, refl, sym, ◌∙◌, true, Option, none, some, List, [], ◌∷◌, Text, ◌==◌, nat_eq_test,
  Bool-cases, inl, inr, if◌then◌else◌,
}
use nass.Db.{Db, UserRow}
use nass.Db.Rows.{update_where}
use nass.Db.Monad.{World, user_not_found, commits}
use nass.Db.Ensures.{
  Holds, Ensures, Anything, ensures-pure, ensures-fail, ensures-total, ensures-branch, ensures-from,
  ensures-tx, ensures-bind, ensures-now,
}
use nass.Users.{
  hashed, set_hash, Bcrypt, set_password, update_user, has_user, update_existing, generate_hash,
}
use nass.Users.Revoke.{
  IsSignedOut, SparesOthers, revoked, revoke_sessions-ensures, revoked-IsSignedOut,
  revoked-SparesOthers,
}

-- The row of user `id` has the hash; every other row is as it was.
abbrev pub HasHash : ℕ → Text → List UserRow → List UserRow → Type 0
HasHash id hash [] [] = Unit {0}
HasHash id hash (u ∷ us) (u' ∷ us') =
    (if u.id == id then u'.password_hash ≡ hash else u' ≡ u) × HasHash id hash us us'
HasHash id hash [] (u' ∷ us') = ⊥
HasHash id hash (u ∷ us) [] = ⊥

update_existing-ensures :
    (n id : ℕ) (f : UserRow → UserRow) (before : Db)
    → Ensures n
        (λ db. db ≡ before)
        (update_existing id f)
        (λ _ db. (has_user id before ≡ true) × (db ≡ update_user id f before))
        Anything
update_existing-ensures n id f before =
    ensures-bind (λ affected db. (affected ≡ has_user id before) × (db ≡ update_user id f before)) _
      _ (ensures-total _ _ (λ db p. rw p (refl, refl)) (λ db p. tt))
      (λ affected.
        ensures-branch _ _ _ (λ t. ensures-pure tt (λ db p. (sym p.0 ∙ t, p.1)))
          (λ t. ensures-fail user_not_found (λ db p. tt)))

HasHash-update :
    (id now : ℕ) (hash : Text) (us : List UserRow)
    → HasHash id hash us (update_where (λ u. u.id == id) (set_hash hash now) us)
HasHash-update id now hash [] = tt
HasHash-update id now hash (u ∷ us) = (
  elim (Bool-cases (u.id == id)) [ inl t ↦ rw t refl | inr t ↦ rw t refl ],
  HasHash-update id now hash us,
)

module _ (bcrypt : Bcrypt) (password : Text) where
  hashed-Holds :
      (P : Db → Type 0) (w : World) (o : Option Text)
      → bcrypt.generate w.drawn password ≡ o
      → P w.db
      → Holds w.now (λ hash db. (bcrypt.accepts hash password ≡ true) × P db) P (hashed w o)
  hashed-Holds P w none e p = (refl, p)
  hashed-Holds P w (some hash) e p = (refl, (bcrypt.accepts_own w.drawn password hash e, p))

  pub generate_hash-ensures :
      (n : ℕ) (P : Db → Type 0)
      → Ensures n P
          (generate_hash bcrypt password)
          (λ hash db. (bcrypt.accepts hash password ≡ true) × P db)
          P
  unfolding generate_hash
  generate_hash-ensures n P = record {
    at = λ w e p. rw (← e) (hashed-Holds P w (bcrypt.generate w.drawn password) refl p);
  }

module _ (bcrypt : Bcrypt) (id : ℕ) (password : Text) where
  -- `hash` is accepted for the new password.
  abbrev pub IsReset : Db → Db → Type 0
  IsReset before db =
      (hash : Text) × (bcrypt.accepts hash password ≡ true)
      × HasHash id hash before.users db.users
      × IsSignedOut id db
      × SparesOthers id before db

  IsReset-revoked :
      (hash : Text) (now : ℕ) (before start db : Db)
      → bcrypt.accepts hash password ≡ true
      → start ≡ before
      → db ≡ revoked id (update_user id (set_hash hash now) start)
      → IsReset before db
  IsReset-revoked hash now before start db accepted same e =
      rw (e, ← same)
        (
          hash,
          accepted,
          HasHash-update id now hash start.users,
          revoked-IsSignedOut id (update_user id (set_hash hash now) start) _ refl,
          revoked-SparesOthers id (update_user id (set_hash hash now) start),
        )

  pub set_password-ensures :
      (n : ℕ) (before : Db)
      → Ensures n
          (λ db. db ≡ before)
          (set_password bcrypt id password)
          (λ _ db. IsReset before db)
          (λ db. db ≡ before)
  unfolding set_password
  set_password-ensures n before =
      ensures-branch _ _ _ (λ t. ensures-fail _ (λ db p. p))
        λ t.
          ensures-bind _ _ _ (generate_hash-ensures bcrypt password n (λ db. db ≡ before)) λ hash.
            ensures-tx _
              (λ start p. ensures-now _ (
                ensures-bind _ _ _ (update_existing-ensures n id (set_hash hash n) start) λ _.
                  ensures-bind _ _ _
                    (ensures-from _ _ (λ db q. q.1) (revoke_sessions-ensures n id _))
                    λ _.
                      ensures-pure (commits tt)
                        (λ db q. IsReset-revoked hash n before start db p.0 p.1 q)))
              (λ db p. p.1)

  -- SetPassword either reports an error, and then the database is as it was whichever of its
  -- statements failed, or it reports none: then the stored hash of `id` accepts the new password,
  -- no other account is changed, `id` holds no session and no token, and the sessions and tokens of
  -- everybody else are still there.
  pub set_password-Holds :
      (w : World)
      → Holds w.now (λ _ db. IsReset w.db db) (λ db. db ≡ w.db) (set_password bcrypt id password w)
  set_password-Holds w = (set_password-ensures w.now w.db).at w refl refl
