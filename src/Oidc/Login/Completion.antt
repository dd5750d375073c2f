-- ===== src/Oidc/Login/Completion.antt =====
-- Who completes an authorization request through internal/auth/oidc/login.go.
use nass.Common.{
  ℕ, ◌≡◌, refl, sym, ap, ◌∙◌, Bool, true, false, not, Option, Text, text_eq_test, nat_eq_test,
}
use nass.Db.{Db}
use nass.Db.Rows.{any_of-NoRow, update_where-NoRow}
use nass.Db.Monad.{World, Result, ok, err}
use nass.Db.Ensures.{
  Holds, Ensures, Attempted, ensures-pure, ensures-fail, ensures-bind, ensures-branch, ensures-now,
  ensures-attempt, ensures-given, ensures-total, ensures-from,
}
use nass.Throttle.{Throttle, allow}
use nass.Users.{Bcrypt, User}
use nass.Users.Verification.{IsVerified, verify-ensures}
use nass.Oidc.Requests.{mark_auth_request_complete, complete, complete_request, has_request}
use nass.Oidc.Login.{
  Page, bad_request, forbidden, server_error, form, too_many, callback, portal_login, Form,
  complete_for, completed_page, after_verify, allowed_post, post_login,
}

not-false : (b : Bool) → not b ≡ false → b ≡ true
not-false true h = refl
not-false false h = cc

-- The request is there, and `db` has it completed for the user.
abbrev pub IsCompleted : ℕ → Text → ℕ → Db → Db → Type 0
IsCompleted now id user before db =
    (has_request id before ≡ true) × (db ≡ complete_request now id user before)

unknown_request :
    (now : ℕ) (id : Text) (user : ℕ) (before : Db)
    → has_request id before ≡ false
    → complete_request now id user before ≡ before
unknown_request now id user before h =
    ap (λ rows. record before { oidc_auth_requests = rows })
      (update_where-NoRow _ (complete now user) before.oidc_auth_requests
        (any_of-NoRow _ before.oidc_auth_requests h))

mark-ensures :
    (n : ℕ) (id : Text) (user : ℕ) (before : Db)
    → Ensures n
        (λ db. db ≡ before)
        (mark_auth_request_complete id user)
        (λ _ db. IsCompleted n id user before db)
        (λ db. db ≡ before)
unfolding mark_auth_request_complete
mark-ensures n id user before = ensures-now _ (
    ensures-bind
      (λ affected db. (affected ≡ has_request id before) × (db ≡ complete_request n id user before))
      _ _ (ensures-total _ _ (λ db p. rw p (refl, refl)) (λ db p. p))
      λ affected.
        ensures-branch _ _ _ (λ t. ensures-pure tt (λ db p. (sym p.0 ∙ t, p.1)))
          (λ t. ensures-fail _ (λ db p. p.1 ∙ unknown_request n id user before (sym p.0 ∙ t))))

-- A redirect to the callback says that the request is completed; every other page, that nothing is
-- changed.
abbrev pub IsPage : (Db → Db → Type 0) → Text → Page → Db → Db → Type 0
IsPage Done id bad_request before db = db ≡ before
IsPage Done id forbidden before db = db ≡ before
IsPage Done id server_error before db = db ≡ before
IsPage Done id (form message) before db = db ≡ before
IsPage Done id (too_many wait) before db = db ≡ before
IsPage Done id (callback id') before db = (id' ≡ id) × Done before db
IsPage Done id (portal_login id') before db = db ≡ before

module _ (bcrypt : Bcrypt) (ip : Text) (url_host : Text → Option Text) (f : Form) where
  -- The throttle let the attempt pass, and the password is that of the account.
  abbrev pub IsLoggedIn : Option Throttle → ℕ → Db → Db → Type 0
  IsLoggedIn t now before db =
      ((allow t ip f.username now).1 ≡ true)
      × (u : User) × IsVerified bcrypt f.username f.password before u
      × IsCompleted now f.id u.id before db

  completed-IsPage :
      (n : ℕ) (t : Option Throttle) (u : User) (before db : Db) (done : Result (Unit {0}))
      → (allow t ip f.username n).1 ≡ true
      → IsVerified bcrypt f.username f.password before u
      → Attempted (λ _ db. IsCompleted n f.id u.id before db) (λ db. db ≡ before) done db
      → IsPage (IsLoggedIn t n) f.id (completed_page f.id done) before db
  completed-IsPage n t u before db (ok done) passed verified h = (refl, (passed, u, verified, h))
  completed-IsPage n t u before db (err e) passed verified h = h

  complete_for-ensures :
      (n : ℕ) (t : Option Throttle) (u : User) (before : Db)
      → (allow t ip f.username n).1 ≡ true
      → IsVerified bcrypt f.username f.password before u
      → Ensures n
          (λ db. db ≡ before)
          (complete_for f.id u.id)
          (λ page db. IsPage (IsLoggedIn t n) f.id page before db)
          (λ db. ⊥)
  complete_for-ensures n t u before passed verified =
      ensures-bind _ _ _ (ensures-attempt _ (mark-ensures n f.id u.id before))
        λ done. ensures-pure _ (λ db h. completed-IsPage n t u before db done passed verified h)

  abbrev IsPosted : Option Throttle → ℕ → Db → Option Throttle × Page → Db → Type 0
  IsPosted t now before r db = IsPage (IsLoggedIn t now) f.id r.1 before db

  after_verify-ensures :
      (n : ℕ) (t t' : Option Throttle) (before : Db) (found : Result User)
      → (allow t ip f.username n).1 ≡ true
      → Ensures n
          (Attempted
            (λ u db. IsVerified bcrypt f.username f.password before u × (db ≡ before))
            (λ db. db ≡ before)
            found)
          (after_verify url_host bcrypt ip t' f found)
          (IsPosted t n before)
          (λ db. ⊥)
  after_verify-ensures n t t' before (err e) passed = ensures-now _ (ensures-pure _ (λ db p. p))
  after_verify-ensures n t t' before (ok u) passed =
      ensures-given _ (λ db p. p.0)
        λ verified.
          ensures-bind _ _ _
            (ensures-from _ _ (λ db p. p.1) (complete_for-ensures n t u before passed verified))
            λ page. ensures-pure _ (λ db h. h)

  allowed_post-ensures :
      (n : ℕ) (t : Option Throttle) (before : Db)
      → Ensures n
          (λ db. db ≡ before)
          (allowed_post url_host bcrypt ip f (allow t ip f.username n))
          (IsPosted t n before)
          (λ db. ⊥)
  allowed_post-ensures n t before = ensures-now _ (
      ensures-branch _ _ _ (λ late. ensures-pure _ (λ db p. p))
        λ late.
          ensures-bind _ _ _
            (ensures-attempt _ (verify-ensures bcrypt f.username f.password n before))
            λ found. after_verify-ensures n t _ before found (not-false _ late))

  post_login-ensures :
      (n : ℕ) (t : Option Throttle) (before : Db)
      → Ensures n
          (λ db. db ≡ before)
          (post_login url_host bcrypt ip t f)
          (IsPosted t n before)
          (λ db. ⊥)
  unfolding post_login
  post_login-ensures n t before =
      ensures-branch _ _ _ (λ x. ensures-pure _ (λ db p. p))
        λ x.
          ensures-branch _ _ _ (λ y. ensures-pure _ (λ db p. p))
            λ y.
              ensures-branch _ _ _ (λ z. ensures-pure _ (λ db p. p))
                λ z. ensures-now _ (allowed_post-ensures n t before)

  -- A post of the login form ends with a redirect to the provider's callback only where the throttle let
  -- the attempt pass, the password is that of the account of that name, and the request of the
  -- form is there: then exactly that request is completed, for that account. With any other page
  -- the database is as it was. No error is left over.
  pub post_login-Holds :
      (t : Option Throttle) (w : World)
      → Holds w.now
          (λ r db. IsPage (IsLoggedIn t w.now) f.id r.1 w.db db)
          (λ db. ⊥)
          (post_login url_host bcrypt ip t f w)
  post_login-Holds t w = (post_login-ensures w.now t w.db).at w refl refl
