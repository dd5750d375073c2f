-- ===== src/Db/Monad.antt =====
-- Code that talks to the database: state passing with errors, where any call of the database may
-- fail. The pattern of the failures is the world's own, so a theorem holds for every pattern.
use nass.Common.{
  none, some, some, Option, ◌∷◌, List, ℕ, suc, Bool, true, false, Text, ◌≡◌, refl, if◌then◌else◌,
  Bool-cases, inl, inr, arith,
}
use nass.Db.{Db}

pub data Error : Type 0 where
  db_error unique_error foreign_key_error rand_error bcrypt_error : Error
  user_not_found user_exists bad_password username_required password_too_short : Error
  invalid_subject invalid_refresh_token refresh_token_expired token_invalid token_expired : Error
  token_not_for_client code_invalid auth_request_not_found login_required : Error
  invalid_client client_not_found invalid_client_secret client_exists no_client : Error
  app_name_required redirect_uri_required : Error

pub data Result (A : Type 0) : Type 0 where
  ok : A → Result A
  err : Error → Result A

-- What http.SetCookie is given, of the fields that the code sets. `max_age` is `none` where MaxAge
-- is 0, and `some 0` where it is negative: the browser drops the cookie at once.
pub record Cookie : Type 0 where
  pub value : Text
  pub domain : Text
  pub expires : ℕ
  pub max_age : Option ℕ
  pub http_only : Bool
  pub secure : Bool

-- `fault n` says whether call n of the database or of crypto/rand fails. `fresh n` is draw n of the
-- random source. `cookies` are those set on the response, newest first.
pub record World : Type 0 where
  pub db : Db
  pub now : ℕ
  pub calls : ℕ
  pub fault : ℕ → Bool
  pub drawn : ℕ
  pub fresh : ℕ → Text
  pub cookies : List Cookie

abbrev pub M : Type 0 → Type 0
M A = World → Result A × World

unfoldable pub pure : {A : Type 0} → A → M A
pure a w = (ok a, w)

unfoldable pub fail : {A : Type 0} → Error → M A
fail e w = (err e, w)

abbrev pub bind_result : {A B : Type 0} → Result A → World → (A → M B) → Result B × World
bind_result (ok a) w f = f a w
bind_result (err e) w f = (err e, w)

unfoldable pub get_now : M ℕ
get_now w = (ok w.now, w)

-- `if` between computations.
unfoldable pub branch : {A : Type 0} → Bool → M A → M A → M A
branch true m k = m
branch false m k = k

infixl 5 ◌>>=◌ ◌>>◌
-- Opening this opens `pure`, `fail`, `get_now` and `branch` too.
unfoldable pub ◌>>=◌ : {A B : Type 0} (m : M A) (f : A → M B) → M B
unfolding pure fail get_now branch
◌>>=◌ m f w = bind_result (m w).0 (m w).1 f

abbrev pub ◌>>◌ : {A : Type 0} (first : M (Unit {0})) (next : M A) → M A
first >> next = first >>= λ done. next

abbrev pub called : World → World
called w = record w { calls = suc w.calls }

abbrev pub after_statement : {A : Type 0} → World → Result (A × Db) → Result A × World
after_statement w (ok (a, db)) = (ok a, record (called w) { db = db })
after_statement w (err e) = (err e, called w)

-- One statement: it fails and changes nothing, or it is done whole.
unfoldable pub sql : {A : Type 0} → (Db → Result (A × Db)) → M A
sql f w = if w.fault w.calls then (err db_error, called w) else after_statement w (f w.db)

-- A statement that changes rows and cannot violate a constraint.
abbrev pub exec : (Db → Db) → M (Unit {0})
exec f = sql (λ db. ok (tt, f db))

-- The first constraint that a row violates.
abbrev pub violation : Bool → Error → Option Error → Option Error
violation true e next = some e
violation false e next = next

abbrev pub unless_violated : Option Error → Db → Result (Unit {0} × Db)
unless_violated none db = ok (tt, db)
unless_violated (some e) db = err e

-- A statement that is refused where a constraint of the tables would be violated.
abbrev pub exec_checked : (Db → Option Error) → (Db → Db) → M (Unit {0})
exec_checked c f = sql (λ db. unless_violated (c db) (f db))

-- `QueryRow(…).Scan`, where `none` is sql.ErrNoRows.
abbrev pub query : {A : Type 0} → (Db → A) → M A
query f = sql (λ db. ok (f db, db))

-- How the body of a transaction ends without an error: by Commit, or by a plain return, after
-- which the deferred Rollback undoes it.
pub data Ends (A : Type 0) : Type 0 where
  commits : A → Ends A
  returns : A → Ends A

abbrev pub finish : {A : Type 0} → Db → Result (Ends A) × World → Result A × World
finish before (ok (commits a), w) =
    if w.fault w.calls then (err db_error, record (called w) { db = before }) else (ok a, called w)
finish before (ok (returns a), w) = (ok a, record w { db = before })
finish before (err e, w) = (err e, record w { db = before })

-- `tx, err := db.BeginTx(…); defer tx.Rollback(); …; return tx.Commit()`
unfoldable pub with_tx : {A : Type 0} → M (Ends A) → M A
with_tx body w = if w.fault w.calls then (err db_error, called w) else finish w.db (body (called w))

-- A draw of `n` random bytes as text; the bytes of different draws are the world's.
unfoldable pub random_token : M Text
random_token w =
    if w.fault w.calls
    then (err rand_error, called w)
    else (ok (w.fresh w.drawn), record (called w) { drawn = suc w.drawn })

-- http.SetCookie
unfoldable pub set_cookie : Cookie → M (Unit {0})
set_cookie c w = (ok tt, record w { cookies = c ∷ w.cookies })

-- A statement whose error the caller throws away.
abbrev pub forget_error : {A : Type 0} → Result A × World → Result (Unit {0}) × World
forget_error r = (ok tt, r.1)

unfoldable pub ignore_error : {A : Type 0} → M A → M (Unit {0})
ignore_error m w = forget_error (m w)

abbrev pub caught : {A : Type 0} → Result A × World → Result (Result A) × World
caught r = (ok r.0, r.1)

-- A caller that goes on whether or not there was an error.
unfoldable pub attempt : {A : Type 0} → M A → M (Result A)
attempt m w = caught (m w)

-- uuid.NewString, which does not return an error.
unfoldable pub new_uuid : M Text
new_uuid w = (ok (w.fresh w.drawn), record w { drawn = suc w.drawn })

finish-err :
    {A : Type 0} (before : Db) (r : Result (Ends A) × World) (e : Error)
    → (finish before r).0 ≡ err e
    → (finish before r).1.db ≡ before
finish-err before (ok (commits a), w) e h = ground arith
finish-err before (ok (returns a), w) e h = refl
finish-err before (err e', w) e h = refl

-- A transaction that reports an error has changed nothing, whichever statement failed.
pub with_tx-err :
    {A : Type 0} (body : M (Ends A)) (w : World) (e : Error)
    → (with_tx body w).0 ≡ err e
    → (with_tx body w).1.db ≡ w.db
unfolding with_tx
with_tx-err body w e h = elim (Bool-cases (w.fault w.calls)) [
  | inl f ↦ rw f
  | inr f ↦ rw f (finish-err w.db (body (called w)) e (rw f at h))
]

abbrev pub map_result_error : {A : Type 0} → (Error → Error) → Result A × World → Result A × World
map_result_error f (ok a, w) = (ok a, w)
map_result_error f (err e, w) = (err (f e), w)

-- A caller that replaces an error by one of its own.
unfoldable pub map_error : {A : Type 0} → (Error → Error) → M A → M A
map_error f m w = map_result_error f (m w)
