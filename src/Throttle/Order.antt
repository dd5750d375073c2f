-- ===== src/Throttle/Order.antt =====
-- The failures under each key of throttle.go stand in the order of their times, none in the future.
use nass.Common.{
  ℕ, ◌≤◌, Bool, true, false, Option, none, some, List, [], ◌∷◌, ◌++◌, Text, Dict, delete, keys,
  ◌==◌, if◌then◌else◌, text_eq_test, keep_if, All, All-keep_if, lookup, arith,
}
use nass.Throttle.{
  Throttle, new_login_throttle, at, trim, trim_each, record_failure, sweep, allow, failed, success,
  retry_after, user_key, ip_key,
}
use nass.Throttle.Trim.{at-trim, at-insert, at-delete}
use nass.Throttle.Calls.{Call, allows, fails, succeeds, asks_wait, Log, Ordered, step, run}
use nass.Throttle.History.{made}

abbrev pub Rising : ℕ → List ℕ → Type 0
Rising lo [] = Unit {0}
Rising lo (ts ∷ l) = (lo ≤ ts) × Rising ts l

Rising-mono : (lo lo' : ℕ) (l : List ℕ) → lo ≤ lo' → Rising lo' l → Rising lo l
Rising-mono lo lo' [] h r = tt
Rising-mono lo lo' (ts ∷ l) h r = (omega arith, r.1)

pub Rising-keep_if : (p : ℕ → Bool) (lo : ℕ) (l : List ℕ) → Rising lo l → Rising lo (keep_if p l)
Rising-keep_if p lo [] r = tt
Rising-keep_if p lo (ts ∷ l) r =
    let rest = Rising-keep_if p ts l r.1 in
    ground (arith, rest, Rising-mono lo ts (keep_if p l) r.0 rest)

Rising-snoc :
    (now lo : ℕ) (l : List ℕ)
    → lo ≤ now
    → Rising lo l
    → All (λ ts. ts ≤ now) l
    → Rising lo (l ++ now ∷ [])
Rising-snoc now lo [] h r a = (h, tt)
Rising-snoc now lo (ts ∷ l) h r a = (r.0, Rising-snoc now ts l a.0 r.1 a.1)

All-le_mono :
    (now now' : ℕ) (l : List ℕ) → now ≤ now' → All (λ ts. ts ≤ now) l → All (λ ts. ts ≤ now') l
All-le_mono now now' [] h a = tt
All-le_mono now now' (ts ∷ l) h a = (omega arith, All-le_mono now now' l h a.1)

All-le-snoc : (now : ℕ) (l : List ℕ) → All (λ ts. ts ≤ now) l → All (λ ts. ts ≤ now) (l ++ now ∷ [])
All-le-snoc now [] a = (omega arith, tt)
All-le-snoc now (ts ∷ l) a = (a.0, All-le-snoc now l a.1)

abbrev pub InOrder : ℕ → List ℕ → Type 0
InOrder now l = Rising 0 l × All (λ ts. ts ≤ now) l

abbrev pub EntriesInOrder : ℕ → Dict (List ℕ) → Type 0
EntriesInOrder now m = (k : Text) → InOrder now (at k m)

InOrder-if :
    (now : ℕ) (b : Bool) (l l' : List ℕ)
    → InOrder now l
    → InOrder now l'
    → InOrder now (if b then l else l')
InOrder-if now true l l' h h' = h
InOrder-if now false l l' h h' = h'

EntriesInOrder-trim :
    (bound now window : ℕ) (k : Text) (m : Dict (List ℕ))
    → EntriesInOrder bound m
    → EntriesInOrder bound (trim now window k m)
EntriesInOrder-trim bound now window k m h j = rw (at-trim now window k j m) (
    InOrder-if bound (k == j) _ _
      (Rising-keep_if _ 0 (at j m) (h j).0, All-keep_if _ _ (at j m) (h j).1) (h j))

EntriesInOrder-trim_each :
    (bound now window : ℕ) (ks : List Text) (m : Dict (List ℕ))
    → EntriesInOrder bound m
    → EntriesInOrder bound (trim_each now window ks m)
unfolding trim_each
EntriesInOrder-trim_each bound now window [] m h = h
EntriesInOrder-trim_each bound now window (k ∷ ks) m h =
    EntriesInOrder-trim_each bound now window ks (trim now window k m)
      (EntriesInOrder-trim bound now window k m h)

EntriesInOrder-sweep :
    (bound now : ℕ) (t : Throttle)
    → EntriesInOrder bound t.entries
    → EntriesInOrder bound (sweep now t).entries
unfolding sweep
EntriesInOrder-sweep bound now t h k =
    ground (arith, h k, EntriesInOrder-trim_each bound now t.window (keys t.entries) t.entries h k)

EntriesInOrder-delete :
    (bound : ℕ) (k : Text) (m : Dict (List ℕ))
    → EntriesInOrder bound m
    → EntriesInOrder bound (delete k m)
EntriesInOrder-delete bound k m h j =
    rw (at-delete k j m) (InOrder-if bound (k == j) [] (at j m) (tt, tt) (h j))

EntriesInOrder-record_failure :
    (now window : ℕ) (k : Text) (m : Dict (List ℕ))
    → EntriesInOrder now m
    → EntriesInOrder now (record_failure now window k m)
unfolding record_failure
EntriesInOrder-record_failure now window k m h = EntriesInOrder-trim now now window k _ λ j.
    rw (at-insert k j (at k m ++ now ∷ []) m) (
      InOrder-if now (k == j) _ _
        (Rising-snoc now 0 (at k m) (omega arith) (h k).0 (h k).1, All-le-snoc now (at k m) (h k).1)
        (h j))

EntriesInOrder-mono :
    (now now' : ℕ) (m : Dict (List ℕ)) → now ≤ now' → EntriesInOrder now m → EntriesInOrder now' m
EntriesInOrder-mono now now' m le h k = ((h k).0, All-le_mono now now' (at k m) le (h k).1)

abbrev pub IsInOrder : ℕ → Option Throttle → Type 0
IsInOrder now none = Unit {0}
IsInOrder now (some t) = EntriesInOrder now t.entries

step-IsInOrder :
    (now now' : ℕ) (t : Option Throttle) (c : Call)
    → now ≤ now'
    → IsInOrder now t
    → IsInOrder now' (step t (now', c))
unfolding step allow failed success retry_after
step-IsInOrder now now' none (allows i v) le h = tt
step-IsInOrder now now' none (fails i v) le h = tt
step-IsInOrder now now' none (succeeds i v) le h = tt
step-IsInOrder now now' none (asks_wait i v) le h = tt
step-IsInOrder now now' (some t) (allows i v) le h =
    EntriesInOrder-trim now' now' t.window (ip_key i) _ (
      EntriesInOrder-trim now' now' t.window (user_key i v) _
        (EntriesInOrder-mono now now' t.entries le h))
step-IsInOrder now now' (some t) (fails i v) le h = EntriesInOrder-sweep now' now' _ (
    EntriesInOrder-record_failure now' t.window (ip_key i) _ (
      EntriesInOrder-record_failure now' t.window (user_key i v) _
        (EntriesInOrder-mono now now' t.entries le h)))
step-IsInOrder now now' (some t) (succeeds i v) le h =
    EntriesInOrder-delete now' (user_key i v) t.entries
      (EntriesInOrder-mono now now' t.entries le h)
step-IsInOrder now now' (some t) (asks_wait i v) le h =
    EntriesInOrder-trim now' now' t.window (ip_key i) _ (
      EntriesInOrder-trim now' now' t.window (user_key i v) _
        (EntriesInOrder-mono now now' t.entries le h))

IsInOrder-mono :
    (now now' : ℕ) (t : Option Throttle) → now ≤ now' → IsInOrder now t → IsInOrder now' t
IsInOrder-mono now now' none le h = tt
IsInOrder-mono now now' (some t) le h = EntriesInOrder-mono now now' t.entries le h

pub run-IsInOrder :
    (max ip_max window now : ℕ) (log : Log)
    → Ordered now log
    → IsInOrder now (run (made max ip_max window) log)
unfolding run new_login_throttle at lookup
run-IsInOrder max ip_max window now [] o = λ k. (tt, tt)
run-IsInOrder max ip_max window now ((then_, c) ∷ log) o =
    IsInOrder-mono then_ now _ o.0
      (step-IsInOrder then_ then_ _ c (omega arith) (run-IsInOrder max ip_max window then_ log o.1))
