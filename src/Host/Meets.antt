-- ===== src/Host/Meets.antt =====
-- What a computation on the host comes to, with a rule for each way to build one.
use nass.Common.{◌≡◌, refl, ◌∙◌, Bool, true, false, Text}
use nass.Db.{Db}
use nass.Db.Monad.{M, Result, ok, err, World}
use nass.Db.Ensures.{Ensures, Holds}
use nass.Host.{
  Host, H, Call, Reply, Trouble, from_system, within, Failure, fine, broken, Outcome, done, fails,
  bind_outcome, ◌>>=◌, asked, answered, act, finished_in, in_db, wrap_outcome, wrapped, kept,
  caught, when, return, raise,
}

-- A result meets `Q`, an error `E`.
abbrev pub Meets :
    {A : Type 0} → (A → Host → Type 0) → (Trouble → Host → Type 0) → Outcome A × Host → Type 0
Meets Q E (done a, h) = Q a h
Meets Q E (fails t, h) = E t h

pub record Comes {A : Type 0} (h : Host) (m : H A) (Q : A → Host → Type 0)
    (E : Trouble → Host → Type 0) : Type 0 where
  pub at : Meets Q E (m h)

-- Code on the database changes nothing but the world, and the clock stands still.
abbrev pub SameHost : Host → Host → Type 0
SameHost h h' =
    (h'.made ≡ h.made) × (h'.calls ≡ h.calls) × (h'.reply ≡ h.reply) × (h'.world.now ≡ h.world.now)

pub SameHost-trans : (h h' x : Host) → SameHost h h' → SameHost h' x → SameHost h x
SameHost-trans h h' x (m, c, r, n) (m', c', r', n') = (m' ∙ m, c' ∙ c, r' ∙ r, n' ∙ n)

-- The database is as it was too.
abbrev pub Untouched : Host → Host → Type 0
Untouched h h' = SameHost h h' × (h'.world.db ≡ h.world.db)

pub Untouched-refl : (h : Host) → Untouched h h
Untouched-refl h = ((refl, refl, refl, refl), refl)

pub Untouched-trans : (h h' x : Host) → Untouched h h' → Untouched h' x → Untouched h x
Untouched-trans h h' x (s, e) (s', e') = (SameHost-trans h h' x s s', e' ∙ e)

module _ {A : Type 0} where
  bind_outcome-Meets :
      {B : Type 0} (R : A → Host → Type 0) (F : Trouble → Host → Type 0) (Q : B → Host → Type 0)
      (E : Trouble → Host → Type 0) (f : A → H B) (r : Outcome A × Host)
      → Meets R F r
      → ((a : A) (h : Host) → R a h → Comes h (f a) Q E)
      → ((t : Trouble) (h : Host) → F t h → E t h)
      → Meets Q E (bind_outcome r.0 r.1 f)
  bind_outcome-Meets R F Q E f (done a, h) m k k' = (k a h m).at
  bind_outcome-Meets R F Q E f (fails t, h) m k k' = k' t h m

  wrap_outcome-Meets :
      (Q : A → Host → Type 0) (E : Trouble → Host → Type 0) (what : Text) (r : Outcome A × Host)
      → Meets Q (λ t h. E (within what t) h) r
      → Meets Q E (wrap_outcome what r)
  wrap_outcome-Meets Q E what (done a, h) m = m
  wrap_outcome-Meets Q E what (fails t, h) m = m

  Meets-mono :
      (Q Q' : A → Host → Type 0) (E E' : Trouble → Host → Type 0) (r : Outcome A × Host)
      → ((a : A) (h : Host) → Q a h → Q' a h)
      → ((t : Trouble) (h : Host) → E t h → E' t h)
      → Meets Q E r
      → Meets Q' E' r
  Meets-mono Q Q' E E' (done a, h) k k' m = k a h m
  Meets-mono Q Q' E E' (fails t, h) k k' m = k' t h m

  kept-Meets :
      (Q : A → Host → Type 0) (E E' : Trouble → Host → Type 0) (r : Outcome A × Host)
      → Meets Q E r
      → Meets (λ o h. Meets Q E (o, h)) E' (kept r)
  kept-Meets Q E E' (done a, h) m = m
  kept-Meets Q E E' (fails t, h) m = m

  finished_in-Meets :
      (Q : A → Db → Type 0) (E : Db → Type 0) (h : Host) (r : Result A × World)
      → Holds h.world.now Q E r
      → Meets
          (λ a h'. SameHost h h' × Q a h'.world.db)
          (λ t h'. SameHost h h' × E h'.world.db)
          (finished_in h r)
  finished_in-Meets Q E h (ok a, w) (n, q) = ((refl, refl, refl, n), q)
  finished_in-Meets Q E h (err e, w) (n, q) = ((refl, refl, refl, n), q)

module _ {A : Type 0} {h : Host} {Q : A → Host → Type 0} {E : Trouble → Host → Type 0} where
  pub comes-return : (a : A) → Q a h → Comes h (return a) Q E
  comes-return a q = record { at = q }

  pub comes-raise : (t : Trouble) → E t h → Comes h (raise t) Q E
  comes-raise t e = record { at = e }

  pub comes-to :
      (Q' : A → Host → Type 0) (E' : Trouble → Host → Type 0) (m : H A)
      → ((a : A) (h' : Host) → Q' a h' → Q a h')
      → ((t : Trouble) (h' : Host) → E' t h' → E t h')
      → Comes h m Q' E'
      → Comes h m Q E
  comes-to Q' E' m k k' c = record { at = Meets-mono Q' Q E' E (m h) k k' c.at }

  pub comes-wrapped :
      (what : Text) (m : H A)
      → Comes h m Q (λ t h'. E (within what t) h')
      → Comes h (wrapped what m) Q E
  unfolding wrapped
  comes-wrapped what m c = record { at = wrap_outcome-Meets Q E what (m h) c.at }

  pub comes-when :
      (b : Bool) (m k : H A)
      → (b ≡ true → Comes h m Q E)
      → (b ≡ false → Comes h k Q E)
      → Comes h (when b m k) Q E
  unfolding when
  comes-when true m k x y = record { at = (x refl).at }
  comes-when false m k x y = record { at = (y refl).at }

module _ {A B : Type 0} {h : Host} {Q : B → Host → Type 0} {E : Trouble → Host → Type 0} where
  pub comes-bind :
      (R : A → Host → Type 0) (F : Trouble → Host → Type 0) (m : H A) (f : A → H B)
      → Comes h m R F
      → ((a : A) (h' : Host) → R a h' → Comes h' (f a) Q E)
      → ((t : Trouble) (h' : Host) → F t h' → E t h')
      → Comes h (m >>= f) Q E
  unfolding ◌>>=◌
  comes-bind R F m f c k k' = record { at = bind_outcome-Meets R F Q E f (m h) c.at k k' }

module _ {A B : Type 0} {h : Host} {Q : B → Host → Type 0} {E : Trouble → Host → Type 0} where
  -- A caller that looks at the outcome.
  pub comes-caught :
      (R : A → Host → Type 0) (F : Trouble → Host → Type 0) (m : H A) (f : Outcome A → H B)
      → Comes h m R F
      → ((o : Outcome A) (h' : Host) → Meets R F (o, h') → Comes h' (f o) Q E)
      → Comes h (caught m >>= f) Q E
  unfolding caught
  comes-caught R F m f c k =
      comes-bind (λ o h'. Meets R F (o, h')) (λ t h'. ⊥) (caught m) f
        (record { at = kept-Meets R F (λ t h'. ⊥) (m h) c.at }) k (λ t h' p. absurd p)

module _ {A : Type 0} {h : Host} {Q : A → Host → Type 0} {E : Trouble → Host → Type 0} where
  -- A rule for code on the database gives one for the host.
  pub comes-in_db :
      {QD : A → Db → Type 0} {ED : Db → Type 0} (m : M A)
      → Ensures h.world.now (λ db. db ≡ h.world.db) m QD ED
      → ((a : A) (h' : Host) → SameHost h h' → QD a h'.world.db → Q a h')
      → ((t : Trouble) (h' : Host) → SameHost h h' → ED h'.world.db → E t h')
      → Comes h (in_db m) Q E
  unfolding in_db
  comes-in_db {QD} {ED} m e k k' = record {
    at =
        Meets-mono (λ a h'. SameHost h h' × QD a h'.world.db) Q
          (λ t h'. SameHost h h' × ED h'.world.db) E (finished_in h (m h.world))
          (λ a h' (s, q). k a h' s q) (λ t h' (s, q). k' t h' s q)
          (finished_in-Meets QD ED h (m h.world) (e.at h.world refl refl));
  }

answered-Meets :
    (Q : Text → Host → Type 0) (E : Trouble → Host → Type 0) (r : Reply) (h : Host)
    → ((out : Text) → r ≡ fine out → Q out h)
    → ((e : Failure) (out : Text) → r ≡ broken e out → E (from_system e) h)
    → Meets Q E (answered r h)
answered-Meets Q E (fine out) h x y = x out refl
answered-Meets Q E (broken e out) h x y = y e out refl

module _ {h : Host} {Q : Text → Host → Type 0} {E : Trouble → Host → Type 0} where
  pub comes-act :
      (c : Call)
      → ((out : Text) → h.reply h.made c ≡ fine out → Q out (asked c h))
      → ((e : Failure) (out : Text)
          → h.reply h.made c ≡ broken e out
          → E (from_system e) (asked c h))
      → Comes h (act c) Q E
  unfolding act
  comes-act c x y = record { at = answered-Meets Q E (h.reply h.made c) (asked c h) x y }
