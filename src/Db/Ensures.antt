-- ===== src/Db/Ensures.antt =====
-- What a computation on the database ensures, with a rule for each way to build one.
use nass.Common.{
  some, none, Option, ℕ, ◌≡◌, refl, Bool, true, false, Text, if◌then◌else◌, Bool-cases, inl, inr,
}
use nass.Db.{Db}
use nass.Db.Monad.{
  query, Error, Result, ok, err, World, M, pure, fail, get_now, branch, bind_result, ◌>>=◌, sql,
  exec, called, after_statement, Ends, commits, returns, finish, map_result_error, map_error,
  with_tx, random_token, new_uuid, exec_checked, unless_violated, violation, Cookie, set_cookie,
  forget_error, ignore_error, caught, attempt,
}

module _ {A : Type 0} where
  -- At the end the clock reads what it read before. A result meets `Q`; an error leaves `E`.
  abbrev pub Holds : ℕ → (A → Db → Type 0) → (Db → Type 0) → Result A × World → Type 0
  Holds n Q E (ok a, w) = (w.now ≡ n) × Q a w.db
  Holds n Q E (err e, w) = (w.now ≡ n) × E w.db

  pub record Ensures (n : ℕ) (P : Db → Type 0) (m : M A) (Q : A → Db → Type 0) (E : Db → Type 0)
      : Type 0 where
    pub at : (w : World) → w.now ≡ n → P w.db → Holds n Q E (m w)

-- What holds of a computation, at a result that it is known to have.
pub Holds-ok :
    {A : Type 0} (n : ℕ) (Q : A → Db → Type 0) (E : Db → Type 0) (r : Result A × World) (a : A)
    (w : World)
    → Holds n Q E r
    → r ≡ (ok a, w)
    → Q a w.db
Holds-ok n Q E r a w h e = (rw e at h).1

pub Holds-now :
    {A : Type 0} (n : ℕ) (Q : A → Db → Type 0) (E : Db → Type 0) (r : Result A × World) (a : A)
    (w : World)
    → Holds n Q E r
    → r ≡ (ok a, w)
    → w.now ≡ n
Holds-now n Q E r a w h e = (rw e at h).0

abbrev pub Anything : Db → Type 0
Anything db = Unit {0}

module _ {A : Type 0} where
  after_statement-Holds :
      (n : ℕ) (Q : A → Db → Type 0) (E : Db → Type 0) (w : World) (r : Result (A × Db))
      → w.now ≡ n
      → ((a : A) (db : Db) → r ≡ ok (a, db) → Q a db)
      → E w.db
      → Holds n Q E (after_statement w r)
  after_statement-Holds n Q E w (ok (a, db)) e h h' = (e, h a db refl)
  after_statement-Holds n Q E w (err x) e h h' = (e, h')

  Holds-mono :
      (n : ℕ) (Q Q' : A → Db → Type 0) (E E' : Db → Type 0) (r : Result A × World)
      → ((a : A) (db : Db) → Q a db → Q' a db)
      → ((db : Db) → E db → E' db)
      → Holds n Q E r
      → Holds n Q' E' r
  Holds-mono n Q Q' E E' (ok a, w) h h' (e, q) = (e, h a w.db q)
  Holds-mono n Q Q' E E' (err x, w) h h' (e, q) = (e, h' w.db q)

  map_result_error-Holds :
      (n : ℕ) (Q : A → Db → Type 0) (E : Db → Type 0) (f : Error → Error) (r : Result A × World)
      → Holds n Q E r
      → Holds n Q E (map_result_error f r)
  map_result_error-Holds n Q E f (ok a, w) h = h
  map_result_error-Holds n Q E f (err x, w) h = h

  -- A committed result holds of the last state, a plain return of the state before the transaction.
  abbrev pub Ended : (A → Db → Type 0) → Db → Ends A → Db → Type 0
  Ended Q before (commits a) db = Q a db
  Ended Q before (returns a) db = Q a before

  finish-Holds :
      (n : ℕ) (Q : A → Db → Type 0) (E : Db → Type 0) (before : Db) (r : Result (Ends A) × World)
      → Holds n (Ended Q before) Anything r
      → E before
      → Holds n Q E (finish before r)
  finish-Holds n Q E before (ok (commits a), w) (e, q) h = elim (Bool-cases (w.fault w.calls)) [
    | inl t ↦ rw t (e, h)
    | inr t ↦ rw t (e, q)
  ]
  finish-Holds n Q E before (ok (returns a), w) (e, q) h = (e, q)
  finish-Holds n Q E before (err x, w) (e, q) h = (e, h)

  bind_result-Holds :
      {B : Type 0} (n : ℕ) (Q : B → Db → Type 0) (E : Db → Type 0) (R : A → Db → Type 0)
      (r : Result A × World) (f : A → M B)
      → Holds n R E r
      → ((a : A) → Ensures n (R a) (f a) Q E)
      → Holds n Q E (bind_result r.0 r.1 f)
  bind_result-Holds n Q E R (ok a, w) f (e, q) h = (h a).at w e q
  bind_result-Holds n Q E R (err x, w) f (e, q) h = (e, q)

module _ {A : Type 0} {n : ℕ} {P : Db → Type 0} {Q : A → Db → Type 0} {E : Db → Type 0} where
  pub ensures-pure : (a : A) → ((db : Db) → P db → Q a db) → Ensures n P (pure a) Q E
  unfolding pure
  ensures-pure a h = record { at = λ w e p. (e, h w.db p) }

  pub ensures-fail : (e : Error) → ((db : Db) → P db → E db) → Ensures n P (fail {A = A} e) Q E
  unfolding fail
  ensures-fail e h = record { at = λ w e p. (e, h w.db p) }

  pub ensures-sql :
      (f : Db → Result (A × Db))
      → ((db db' : Db) (a : A) → P db → f db ≡ ok (a, db') → Q a db')
      → ((db : Db) → P db → E db)
      → Ensures n P (sql f) Q E
  unfolding sql
  ensures-sql f h h' = record {
    at = λ w e p. elim (Bool-cases (w.fault w.calls)) [
      | inl t ↦ rw t (e, h' w.db p)
      | inr t ↦
          rw t (after_statement-Holds n Q E w (f w.db) e (λ a db r. h w.db db a p r) (h' w.db p))
    ];
  }

  -- A statement that violates no constraint: it returns `g` and leaves `h`.
  pub ensures-total :
      (g : Db → A) (h : Db → Db)
      → ((db : Db) → P db → Q (g db) (h db))
      → ((db : Db) → P db → E db)
      → Ensures n P (sql (λ db. ok (g db, h db))) Q E
  unfolding sql
  ensures-total g h k k' = record {
    at = λ w e p. elim (Bool-cases (w.fault w.calls)) [
      | inl t ↦ rw t (e, k' w.db p)
      | inr t ↦ rw t (e, k w.db p)
    ];
  }

  -- A statement that reports an error where a constraint would be violated.
  pub ensures-constraint :
      (c : Db → Bool) (x : Error) (g : Db → A) (h : Db → Db)
      → ((db : Db) → P db → c db ≡ false → Q (g db) (h db))
      → ((db : Db) → P db → E db)
      → Ensures n P (sql (λ db. if c db then err x else ok (g db, h db))) Q E
  unfolding sql
  ensures-constraint c x g h k k' = record {
    at = λ w e p. elim (Bool-cases (w.fault w.calls)) [
      | inl t ↦ rw t (e, k' w.db p)
      | inr t ↦ elim (Bool-cases (c w.db)) [
        | inl v ↦ rw (t, v) (e, k' w.db p)
        | inr v ↦ rw (t, v) (e, k w.db p v)
      ]
    ];
  }

  pub ensures-branch :
      (b : Bool) (m k : M A)
      → (b ≡ true → Ensures n P m Q E)
      → (b ≡ false → Ensures n P k Q E)
      → Ensures n P (branch b m k) Q E
  unfolding branch
  ensures-branch true m k hm hk = hm refl
  ensures-branch false m k hm hk = hk refl

  -- The precondition may be weakened to what it implies.
  pub ensures-from :
      (P' : Db → Type 0) (m : M A)
      → ((db : Db) → P db → P' db)
      → Ensures n P' m Q E
      → Ensures n P m Q E
  ensures-from P' m h k = record { at = λ w e p. k.at w e (h w.db p) }

  -- The postconditions may be weakened too.
  pub ensures-to :
      (Q' : A → Db → Type 0) (E' : Db → Type 0) (m : M A)
      → ((a : A) (db : Db) → Q' a db → Q a db)
      → ((db : Db) → E' db → E db)
      → Ensures n P m Q' E'
      → Ensures n P m Q E
  ensures-to Q' E' m h h' k = record {
    at = λ w e p. Holds-mono n Q' Q E' E (m w) h h' (k.at w e p);
  }

  -- Any state that meets the precondition may be named.
  pub ensures-each :
      (m : M A) → ((start : Db) → P start → Ensures n (λ db. db ≡ start) m Q E) → Ensures n P m Q E
  ensures-each m h = record { at = λ w e p. (h w.db p).at w e refl }

  -- A fact that does not depend on the state is a hypothesis from here on.
  pub ensures-given :
      {F : Type 0} (m : M A) → ((db : Db) → P db → F) → (F → Ensures n P m Q E) → Ensures n P m Q E
  ensures-given m h k = record { at = λ w e p. (k (h w.db p)).at w e p }

  pub ensures-map_error :
      (f : Error → Error) (m : M A) → Ensures n P m Q E → Ensures n P (map_error f m) Q E
  unfolding map_error
  ensures-map_error f m k = record {
    at = λ w e p. map_result_error-Holds n Q E f (m w) (k.at w e p);
  }

  pub ensures-tx :
      (body : M (Ends A))
      → ((before : Db) → P before → Ensures n (λ db. db ≡ before) body (Ended Q before) Anything)
      → ((db : Db) → P db → E db)
      → Ensures n P (with_tx body) Q E
  unfolding with_tx
  ensures-tx body h h' = record {
    at = λ w e p. elim (Bool-cases (w.fault w.calls)) [
      | inl t ↦ rw t (e, h' w.db p)
      | inr t ↦
          rw t (
            finish-Holds n Q E w.db (body (called w)) ((h w.db p).at (called w) e refl) (h' w.db p))
    ];
  }

module _ {A B : Type 0} {n : ℕ} {P : Db → Type 0} {Q : B → Db → Type 0} {E : Db → Type 0} where
  pub ensures-bind :
      (R : A → Db → Type 0) (m : M A) (f : A → M B)
      → Ensures n P m R E
      → ((a : A) → Ensures n (R a) (f a) Q E)
      → Ensures n P (m >>= f) Q E
  unfolding ◌>>=◌
  ensures-bind R m f hm hf = record {
    at = λ w e p. bind_result-Holds n Q E R (m w) f (hm.at w e p) hf;
  }

unless_violated-Holds :
    (n : ℕ) (Q : Unit {0} → Db → Type 0) (E : Db → Type 0) (w : World) (o : Option Error) (db : Db)
    → w.now ≡ n
    → (o ≡ none → Q tt db)
    → E w.db
    → Holds n Q E (after_statement w (unless_violated o db))
unless_violated-Holds n Q E w none db e h h' = (e, h refl)
unless_violated-Holds n Q E w (some x) db e h h' = (e, h')

module _ {n : ℕ} {P : Db → Type 0} {Q : Unit {0} → Db → Type 0} {E : Db → Type 0} where
  -- A statement that may violate a constraint.
  pub ensures-exec_checked :
      (c : Db → Option Error) (f : Db → Db)
      → ((db : Db) → P db → c db ≡ none → Q tt (f db))
      → ((db : Db) → P db → E db)
      → Ensures n P (exec_checked c f) Q E
  unfolding sql
  ensures-exec_checked c f h h' = record {
    at = λ w e p. elim (Bool-cases (w.fault w.calls)) [
      | inl t ↦ rw t (e, h' w.db p)
      | inr t ↦ rw t (unless_violated-Holds n Q E w (c w.db) (f w.db) e (h w.db p) (h' w.db p))
    ];
  }

-- A row that violates no constraint violates neither the first nor the others.
pub violation-none :
    (b : Bool) (e : Error) (o : Option Error) → violation b e o ≡ none → (b ≡ false) × (o ≡ none)
violation-none true e o h = cc
violation-none false e o h = (refl, h)

ignored-Holds :
    {A : Type 0} (n : ℕ) (Q : Unit {0} → Db → Type 0) (E : Db → Type 0) (r : Result A × World)
    → Holds n (λ _ db. Q tt db) (Q tt) r
    → Holds n Q E (forget_error r)
ignored-Holds n Q E (ok a, w) h = h
ignored-Holds n Q E (err x, w) h = h

module _ {A B : Type 0} {n : ℕ} {before : Db} {Q : B → Db → Type 0} {E : Db → Type 0} where
  -- A query of a state that is known.
  pub ensures-query :
      (f : Db → A) (k : A → M B)
      → E before
      → ((found : A) → f before ≡ found → Ensures n (λ db. db ≡ before) (k found) Q E)
      → Ensures n (λ db. db ≡ before) (query f >>= k) Q E
  ensures-query f k e h =
      ensures-bind (λ found db. (f before ≡ found) × (db ≡ before)) (query f) k
        (ensures-total f (λ db. db) (λ db p. rw p (refl, refl)) (λ db p. rw p e))
        λ found.
          ensures-given (k found) (λ db p. p.0)
            λ same. ensures-from _ _ (λ db p. p.1) (h found same)

module _ {A : Type 0} {n : ℕ} {before : Db} {Q : A → Db → Type 0} {E : Db → Type 0} where
  -- A transaction on a state that is known.
  pub ensures-tx_known :
      (body : M (Ends A))
      → E before
      → Ensures n (λ db. db ≡ before) body (Ended Q before) Anything
      → Ensures n (λ db. db ≡ before) (with_tx body) Q E
  ensures-tx_known body e h = ensures-tx body (λ start p. rw p h) (λ db p. rw p e)

module _ {A : Type 0} {n : ℕ} {P : Db → Type 0} {Q : A → Db → Type 0} {E : Db → Type 0} where
  pub ensures-now : (f : ℕ → M A) → Ensures n P (f n) Q E → Ensures n P (get_now >>= f) Q E
  unfolding ◌>>=◌
  ensures-now f h = record { at = λ w e p. simp e (h.at w e p) }

  pub ensures-exec :
      (g : Db → Db) (f : Unit {0} → M A) (R : Db → Type 0)
      → ((db : Db) → P db → R (g db))
      → ((db : Db) → P db → E db)
      → Ensures n R (f tt) Q E
      → Ensures n P (exec g >>= f) Q E
  unfolding sql ◌>>=◌
  ensures-exec g f R h h' k = record {
    at = λ w e p. elim (Bool-cases (w.fault w.calls)) [
      | inl t ↦ rw (t, bind_result) (e, h' w.db p)
      | inr t ↦ rw (t, bind_result) (k.at _ e (h w.db p))
    ];
  }

  pub ensures-random :
      (f : Text → M A)
      → ((db : Db) → P db → E db)
      → ((token : Text) → Ensures n P (f token) Q E)
      → Ensures n P (random_token >>= f) Q E
  unfolding random_token ◌>>=◌
  ensures-random f h k = record {
    at = λ w e p. elim (Bool-cases (w.fault w.calls)) [
      | inl t ↦ rw (t, bind_result) (e, h w.db p)
      | inr t ↦ rw (t, bind_result) ((k (w.fresh w.drawn)).at _ e p)
    ];
  }

  pub ensures-set_cookie :
      (c : Cookie) (f : Unit {0} → M A)
      → Ensures n P (f tt) Q E
      → Ensures n P (set_cookie c >>= f) Q E
  unfolding set_cookie ◌>>=◌
  ensures-set_cookie c f k = record { at = λ w e p. k.at _ e p }

  pub ensures-uuid :
      (f : Text → M A)
      → ((token : Text) → Ensures n P (f token) Q E)
      → Ensures n P (new_uuid >>= f) Q E
  unfolding new_uuid ◌>>=◌
  ensures-uuid f k = record { at = λ w e p. (k (w.fresh w.drawn)).at _ e p }

module _ {n : ℕ} {P : Db → Type 0} {Q : Unit {0} → Db → Type 0} {E : Db → Type 0} where
  -- A statement that stands last.
  pub ensures-exec_last :
      (g : Db → Db)
      → ((db : Db) → P db → Q tt (g db))
      → ((db : Db) → P db → E db)
      → Ensures n P (exec g) Q E
  unfolding sql
  ensures-exec_last g h h' = record {
    at = λ w e p. elim (Bool-cases (w.fault w.calls)) [
      | inl t ↦ rw t (e, h' w.db p)
      | inr t ↦ rw t (e, h w.db p)
    ];
  }

  -- Whether the statement was done is not known afterwards.
  pub ensures-ignore :
      {A : Type 0} (m : M A)
      → Ensures n P m (λ _ db. Q tt db) (Q tt)
      → Ensures n P (ignore_error m) Q E
  unfolding ignore_error
  ensures-ignore m k = record { at = λ w e p. ignored-Holds n Q E (m w) (k.at w e p) }

-- What is known after an attempt.
abbrev pub Attempted : {A : Type 0} → (A → Db → Type 0) → (Db → Type 0) → Result A → Db → Type 0
Attempted Q E (ok a) db = Q a db
Attempted Q E (err e) db = E db

caught-Holds :
    {A : Type 0} (n : ℕ) (Q : A → Db → Type 0) (E E' : Db → Type 0) (r : Result A × World)
    → Holds n Q E r
    → Holds n (Attempted Q E) E' (caught r)
caught-Holds n Q E E' (ok a, w) h = h
caught-Holds n Q E E' (err e, w) h = h

module _ {A : Type 0} {n : ℕ} {P : Db → Type 0} {Q : A → Db → Type 0} {E : Db → Type 0} where
  pub ensures-attempt :
      {E' : Db → Type 0} (m : M A) → Ensures n P m Q E → Ensures n P (attempt m) (Attempted Q E) E'
  unfolding attempt
  ensures-attempt {E'} m k = record { at = λ w e p. caught-Holds n Q E E' (m w) (k.at w e p) }
