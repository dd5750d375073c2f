-- ===== src/Throttle/Calls.antt =====
-- The calls of throttle.go in the order of time, run on the throttle, and what they say by themselves.
use nass.Common.{
  ℕ, ◌≤◌, ◌&&◌, Option, some, List, [], ◌∷◌, ◌++◌, Text, ◌==◌, if◌then◌else◌, text_eq_test, All,
}
use nass.Throttle.{Throttle, allow, failed, success, retry_after}
use nass.Throttle.Keys.{NoBar}

pub data Call : Type 0 where
  allows fails succeeds asks_wait : Text → Text → Call

-- The log holds the latest call first, each with its time.
abbrev pub Log : Type 0
Log = List (ℕ × Call)

unfoldable pub step : Option Throttle → ℕ × Call → Option Throttle
step t (now, allows ip u) = (allow t ip u now).0
step t (now, fails ip u) = failed t ip u now
step t (now, succeeds ip u) = success t ip u
step t (now, asks_wait ip u) = (retry_after t ip u now).0

unfoldable pub run : Throttle → Log → Option Throttle
unfolding step
run t [] = some t
run t (c ∷ log) = step (run t log) c

-- The specification counts in the log alone: the failures of a login since its last success,
-- and all failures of an address. It has no keys, no trimming and no sweeping.
abbrev pub fails_of : Text → Text → Log → List ℕ
fails_of ip u [] = []
fails_of ip u ((now, fails i v) ∷ log) =
    if i == ip && v == u then fails_of ip u log ++ now ∷ [] else fails_of ip u log
fails_of ip u ((now, succeeds i v) ∷ log) = if i == ip && v == u then [] else fails_of ip u log
fails_of ip u ((now, allows i v) ∷ log) = fails_of ip u log
fails_of ip u ((now, asks_wait i v) ∷ log) = fails_of ip u log

abbrev pub fails_from : Text → Log → List ℕ
fails_from ip [] = []
fails_from ip ((now, fails i v) ∷ log) =
    if i == ip then fails_from ip log ++ now ∷ [] else fails_from ip log
fails_from ip ((now, succeeds i v) ∷ log) = fails_from ip log
fails_from ip ((now, allows i v) ∷ log) = fails_from ip log
fails_from ip ((now, asks_wait i v) ∷ log) = fails_from ip log

-- Time does not run backwards.
abbrev pub Ordered : ℕ → Log → Type 0
Ordered now [] = Unit {0}
Ordered now ((then_, c) ∷ log) = (then_ ≤ now) × Ordered then_ log

abbrev pub address : Call → Text
address (allows ip u) = ip
address (fails ip u) = ip
address (succeeds ip u) = ip
address (asks_wait ip u) = ip

-- No address holds a bar: what net.SplitHostPort returns of a peer is an IP address.
abbrev pub Plain : Log → Type 0
Plain = All (λ c. NoBar (address c.1))
