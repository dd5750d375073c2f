-- ===== src/Throttle/Retry.antt =====
-- `RetryAfter` of throttle.go is exact: the login is refused before the time that it names, and
-- allowed from then on.
use nass.Common.{
  ℕ, zero, suc, ◌+◌, ◌-◌, ◌<◌, ◌≡◌, refl, sym, ◌∙◌, max, ◌&&◌, Option, none, some, List, [], ◌∷◌,
  Text, ltb, leb, length, get_elem?, length-keep_if-le, dec_lt, ap₂, arith,
}
use nass.Throttle.{
  Throttle, new_login_throttle, trim_both, recent, is_recent, at, allow, wait, retry_after,
  user_key, ip_key,
}
use nass.Throttle.Trim.{at-trim_both-user, at-trim_both-addr}
use nass.Throttle.Calls.{Log, Ordered, run}
use nass.Throttle.History.{made, SameLimits, run-limits}
use nass.Throttle.Order.{Rising, Rising-keep_if, IsInOrder, run-IsInOrder}

-- Behind a recent failure all are recent.
recent_all :
    (now window ts : ℕ) (l : List ℕ)
    → Rising ts l
    → now < ts + window
    → recent now window (ts ∷ l) ≡ ts ∷ l
recent_all now window ts [] s h = ground arith
recent_all now window ts (ts' ∷ l) s h = ground (arith, recent_all now window ts' l s.1)

-- The failures from the i-th on are all recent unless the i-th has aged out.
aged_out_iff :
    (now window lo : ℕ) (l : List ℕ) (i ts : ℕ)
    → Rising lo l
    → get_elem? l i ≡ some ts
    → ltb (length (recent now window l)) (length l - i) ≡ leb (ts + window) now
aged_out_iff now window lo [] i ts s e = cc
aged_out_iff now window lo (x ∷ l) zero ts s e =
    ground (arith, recent_all now window x l s.1, length-keep_if-le (is_recent now window) l)
aged_out_iff now window lo (x ∷ l) (suc i) ts s e = ground (
  arith,
  recent_all now window x l s.1,
  aged_out_iff now window x l i ts s.1 e,
  length-keep_if-le (is_recent now window) l,
)

get_elem?_below : (l : List ℕ) (i : ℕ) → i < length l → (ts : ℕ) × (get_elem? l i ≡ some ts)
get_elem?_below [] i h = elim h [ ]
get_elem?_below (x ∷ l) zero h = (x, refl)
get_elem?_below (x ∷ l) (suc i) h = get_elem?_below l i (omega arith)

-- One budget: after `v` more nanoseconds it has room if and only if its wait is over.
wait_lem :
    (now window limit lo v : ℕ) (l : List ℕ)
    → 0 < limit
    → Rising lo l
    → ltb (length (recent (now + v) window l)) limit ≡ leb (wait now window limit l) v
unfolding wait
wait_lem now window limit lo v l pos r = elim (dec_lt (length l) limit) [
  | yes h ↦ ground (arith, length-keep_if-le (is_recent (now + v) window) l)
  | no h ↦
      let (ts, e) = get_elem?_below l (length l - limit) (omega arith) in
      ground (arith, e, aged_out_iff (now + v) window lo l (length l - limit) ts r e)
]

leb-max : (a b v : ℕ) → leb (max a b) v ≡ (leb a v && leb b v)
leb-max a b v = ground arith

module _ (ip u : Text) (now v : ℕ) where
  retry_after-state :
      (t : Throttle)
      → 0 < t.max
      → 0 < t.ip_max
      → IsInOrder now (some t)
      → (allow (retry_after (some t) ip u now).0 ip u (now + v)).1
        ≡ leb (retry_after (some t) ip u now).1 v
  unfolding allow retry_after
  retry_after-state t pm pi o =
      let t' = trim_both now ip u t in
      rw (at-trim_both-user (now + v) ip u t', at-trim_both-addr (now + v) ip u t')
        (ap₂ ◌&&◌
            (wait_lem now t.window t.max 0 v (at (user_key ip u) t'.entries) pm
              (rw (at-trim_both-user now ip u t) (Rising-keep_if _ 0 _ (o (user_key ip u)).0)))
            (wait_lem now t.window t.ip_max 0 v (at (ip_key ip) t'.entries) pi
              (rw (at-trim_both-addr now ip u t) (Rising-keep_if _ 0 _ (o (ip_key ip)).0)))
          ∙ sym (leb-max _ _ v))

  retry_after-cases :
      (max ip_max window : ℕ) (t : Option Throttle)
      → SameLimits (made max ip_max window) t
      → IsInOrder now t
      → (allow (retry_after t ip u now).0 ip u (now + v)).1 ≡ leb (retry_after t ip u now).1 v
  unfolding new_login_throttle
  retry_after-cases max ip_max window none s o = absurd s
  retry_after-cases max ip_max window (some t) s o =
      retry_after-state t (ground arith) (ground arith) o

  -- However the throttle was used before, with times that do not run backwards: if nothing is
  -- called between, `Allow` after `v` more nanoseconds says yes if and only if the duration that
  -- `RetryAfter` names is at most `v`.
  pub allow-retry_after :
      (max ip_max window : ℕ) (log : Log)
      → Ordered now log
      → let r = retry_after (run (made max ip_max window) log) ip u now in
        (allow r.0 ip u (now + v)).1 ≡ leb r.1 v
  allow-retry_after max ip_max window log o =
      retry_after-cases max ip_max window _ (run-limits (made max ip_max window) log)
        (run-IsInOrder max ip_max window now log o)
