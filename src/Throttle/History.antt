-- ===== src/Throttle/History.antt =====
-- The abstract view of throttle.go: a log of what was called and when. The trimmed and swept
-- map answers as the log does.
use nass.Common.{
  ℕ, ◌≤◌, ◌≡◌, refl, ◌∙◌, Option, none, some, List, [], ◌∷◌, Text, text_eq_test, Dict, arith,
}
use nass.Throttle.{
  Throttle, new_login_throttle, recent, at, allow, failed, success, retry_after, user_key, ip_key,
  record_failure, sweep,
}
use nass.Throttle.Calls.{
  Call, allows, fails, succeeds, asks_wait, Log, step, run, fails_of, fails_from,
}
use nass.Throttle.Keys.{NoBar}

-- Read at `later`, what the map holds under a key is what the log says.
abbrev Tells : ℕ → ℕ → List ℕ → List ℕ → Type 0
Tells later window l l' = recent later window l ≡ recent later window l'

record Agrees (now : ℕ) (log : Log) (t : Throttle) : Type 0 where
  user :
      (later : ℕ) (ip u : Text)
      → now ≤ later
      → NoBar ip
      → Tells later t.window (at (user_key ip u) t.entries) (fails_of ip u log)
  addr :
      (later : ℕ) (ip : Text)
      → now ≤ later
      → Tells later t.window (at (ip_key ip) t.entries) (fails_from ip log)

abbrev Follows : ℕ → Log → Option Throttle → Type 0
Follows now log none = ⊥
Follows now log (some t) = Agrees now log t

module _ {now : ℕ} {log : Log} (t : Throttle) (a : Agrees now log t) (now' : ℕ)
    (le : now ≤ now') where
  -- The two rounds of the loop of `Failed`, before the sweep.
  abbrev both_rounds : Text → Text → Dict (List ℕ)
  both_rounds i v =
      record_failure now' t.window (ip_key i)
        (record_failure now' t.window (user_key i v) t.entries)

-- The limits and the window never change.
abbrev pub SameLimits : Throttle → Option Throttle → Type 0
SameLimits t none = ⊥
SameLimits t (some t') = (t'.max ≡ t.max) × (t'.ip_max ≡ t.ip_max) × (t'.window ≡ t.window)

sweep-limits : (now : ℕ) (t : Throttle) → SameLimits t (some (sweep now t))
unfolding sweep
sweep-limits now t = ground arith

step-limits :
    (t : Throttle) (s : Option Throttle) (c : ℕ × Call) → SameLimits t s → SameLimits t (step s c)
unfolding step allow failed success retry_after
step-limits t none c h = absurd h
step-limits t (some s) (now, allows i v) h = h
step-limits t (some s) (now, fails i v) h =
    let swept = sweep-limits now (record s {
      entries =
          record_failure now s.window (ip_key i)
            (record_failure now s.window (user_key i v) s.entries);
    }) in
    (swept.0 ∙ h.0, swept.1 ∙ h.1, swept.2 ∙ h.2)
step-limits t (some s) (now, succeeds i v) h = h
step-limits t (some s) (now, asks_wait i v) h = h

pub run-limits : (t : Throttle) (log : Log) → SameLimits t (run t log)
unfolding run
run-limits t [] = (refl, refl, refl)
run-limits t (c ∷ log) = step-limits t (run t log) c (run-limits t log)

module _ (max ip_max window : ℕ) where
  abbrev pub made : Throttle
  made = new_login_throttle max ip_max window
