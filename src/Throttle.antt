-- ===== src/Throttle.antt =====
-- internal/auth/throttle.go: the failure counter that slows down password guessing.
-- Times and durations are nanoseconds, counted from Go's zero time, so the zero value of lastSweep
-- is 0; an operation reads the clock once, and its reading is the argument `now`. A nonpositive
-- argument of the constructor is 0 here.
pub mod Keys
pub mod Trim
pub mod Calls
pub mod History
pub mod Order
pub mod Retry
pub mod Sweep
mod Tests
use nass.Common.{
  ℕ, ◌+◌, ◌-◌, ◌*◌, max as larger, Bool, true, ◌&&◌, Option, none, some, List, [], ◌∷◌, ◌++◌, ltb,
  leb, if◌then◌else◌, Text, text, Dict, lookup, insert, delete, keys, keep_if, length, get_elem?,
}

pub record Throttle : Type 0 where
  pub max : ℕ
  pub ip_max : ℕ
  pub window : ℕ
  pub entries : Dict (List ℕ)
  pub last_sweep : ℕ

abbrev pub minute : ℕ
minute = 60 * 1_000_000_000

unfoldable pub new_login_throttle : ℕ → ℕ → ℕ → Throttle
new_login_throttle max ip_max window =
    let max' = if leb max 0 then 10 else max in
    record {
      max = max';
      ip_max = if leb ip_max 0 then 3 * max' else ip_max;
      window = if leb window 0 then minute else window;
      entries = [];
      last_sweep = 0;
    }

unfoldable pub user_key : Text → Text → Text
user_key ip username = text "u|" ++ (ip ++ (text "|" ++ username))

unfoldable pub ip_key : Text → Text
ip_key ip = text "ip|" ++ ip

-- `ts.After(now.Add(-window))`, with the window moved to the other side.
abbrev pub is_recent : ℕ → ℕ → ℕ → Bool
is_recent now window ts = ltb now (ts + window)

abbrev pub recent : ℕ → ℕ → List ℕ → List ℕ
recent now window = keep_if (is_recent now window)

-- `t.entries[key]`, which is nil where the key is absent.
abbrev pub or_nil : Option (List ℕ) → List ℕ
or_nil none = []
or_nil (some failures) = failures

unfoldable pub at : Text → Dict (List ℕ) → List ℕ
at key entries = or_nil (lookup key entries)

abbrev pub store_kept : Text → List ℕ → Dict (List ℕ) → Dict (List ℕ)
store_kept key [] entries = delete key entries
store_kept key (ts ∷ keep) entries = insert key (ts ∷ keep) entries

unfoldable pub trim : ℕ → ℕ → Text → Dict (List ℕ) → Dict (List ℕ)
trim now window key entries = elim (lookup key entries) [
  | none ↦ entries
  | some failures ↦ store_kept key (recent now window failures) entries
]

unfoldable pub trim_each : ℕ → ℕ → List Text → Dict (List ℕ) → Dict (List ℕ)
trim_each now window [] entries = entries
trim_each now window (k ∷ ks) entries = trim_each now window ks (trim now window k entries)

unfoldable pub sweep : ℕ → Throttle → Throttle
sweep now t =
    if ltb (now - t.last_sweep) t.window
    then t
    else record t { last_sweep = now; entries = trim_each now t.window (keys t.entries) t.entries }

-- The state that `Allow` and `RetryAfter` leave behind: both keys are trimmed.
abbrev pub trim_both : ℕ → Text → Text → Throttle → Throttle
trim_both now ip username t = record t {
  entries = trim now t.window (ip_key ip) (trim now t.window (user_key ip username) t.entries);
}

-- One round of the loop of `Failed`.
unfoldable pub record_failure : ℕ → ℕ → Text → Dict (List ℕ) → Dict (List ℕ)
record_failure now window k entries =
    trim now window k (insert k (at k entries ++ now ∷ []) entries)

-- The receiver may be nil, which is `none`.
unfoldable pub allow : Option Throttle → Text → Text → ℕ → Option Throttle × Bool
allow none ip username now = (none, true)
allow (some t) ip username now =
    let t' = trim_both now ip username t in
    (
      some t',
      ltb (length (at (user_key ip username) t'.entries)) t.max
          && ltb (length (at (ip_key ip) t'.entries)) t.ip_max,
    )

unfoldable pub failed : Option Throttle → Text → Text → ℕ → Option Throttle
failed none ip username now = none
failed (some t) ip username now = some (
    sweep now (record t {
      entries =
          record_failure now t.window (ip_key ip)
            (record_failure now t.window (user_key ip username) t.entries);
    }))

unfoldable pub success : Option Throttle → Text → Text → Option Throttle
success none ip username = none
success (some t) ip username = some (record t { entries = delete (user_key ip username) t.entries })

abbrev pub wait_since : ℕ → ℕ → Option ℕ → ℕ
wait_since now window none = 0
wait_since now window (some ts) = ts + window - now

-- `wait` behind its call of `trim`. The difference stops at 0, which is the test `wait < 0`.
unfoldable pub wait : ℕ → ℕ → ℕ → List ℕ → ℕ
wait now window limit failures =
    if ltb (length failures) limit
    then 0
    else wait_since now window (get_elem? failures (length failures - limit))

unfoldable pub retry_after : Option Throttle → Text → Text → ℕ → Option Throttle × ℕ
retry_after none ip username now = (none, 0)
retry_after (some t) ip username now =
    let t' = trim_both now ip username t in
    (
      some t',
      larger (wait now t.window t.max (at (user_key ip username) t'.entries))
          (wait now t.window t.ip_max (at (ip_key ip) t'.entries)),
    )
