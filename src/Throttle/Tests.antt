-- ===== src/Throttle/Tests.antt =====
-- internal/auth/throttle.go on concrete calls, and its theorems at inputs that meet their hypotheses.
use nass.Common.{
  ◌+◌, ◌≡◌, refl, true, false, none, [], ◌∷◌, Text, text, text_eq, leb, lookup, insert, delete,
  keys, arith,
}
use nass.Throttle.{
  new_login_throttle, at, trim, trim_each, sweep, record_failure, allow, failed, success, wait,
  retry_after, user_key, ip_key,
}
use nass.Throttle.Calls.{fails, succeeds, asks_wait, Log, step, run}
use nass.Throttle.History.{made}
use nass.Throttle.Retry.{allow-retry_after}

throttle : Unit {0}
unfolding new_login_throttle at trim trim_each sweep record_failure allow failed success wait
    retry_after user_key ip_key text_eq lookup insert delete keys step run
throttle = tt

abbrev home : Text
home = text "10.0.0.1"

abbrev alice : Text
alice = text "alice"

abbrev bob : Text
bob = text "bob"

-- Newest first: two failures of alice, 30 ns apart, and one of bob.
abbrev log : Log
log =
    (1060, fails home alice)
    ∷ (1050, asks_wait home bob)
    ∷ (1030, fails home alice)
    ∷ (1010, fails home bob)
    ∷ []

blocked_then_allowed :
    ((allow (run (made 2 100 50) log) home alice 1061).1 ≡ false)
    × ((retry_after (run (made 2 100 50) log) home alice 1061).1 ≡ 19)
    × ((allow (run (made 2 100 50) log) home alice 1080).1 ≡ true)
    × ((allow (run (made 2 100 50) log) home bob 1061).1 ≡ true)
unfolding throttle
blocked_then_allowed = (refl, refl, refl, refl)

-- The budget of the address is shared, and a success of one login does not reset it.
address_blocked :
    (allow (run (made 2 2 50) ((1061, succeeds home alice) ∷ log)) home (text "carol") 1062).1
    ≡ false
unfolding throttle
address_blocked = refl

nil_allows : (allow none home alice 5).1 ≡ true
unfolding throttle
nil_allows = refl

allow-retry_after_example :
    (allow (retry_after (run (made 2 100 50) log) home alice 1061).0 home alice (1061 + 19)).1
    ≡ leb (retry_after (run (made 2 100 50) log) home alice 1061).1 19
allow-retry_after_example = allow-retry_after home alice 1061 19 2 100 50 log (omega arith)
