-- ===== src/Apps/Waiting.antt =====
-- WaitFor of internal/apps/install.go. What a request comes to is asked of the network: a request that starts
-- at time t takes (get t).0, and (get t).1 says whether there was a response. The context ends at a deadline.
use nass.Common.{
  ◌∙◌, ℕ, zero, suc, ◌+◌, ◌*◌, ◌≤◌, ◌<◌, ◌≡◌, refl, Bool, true, false, Option, none, some, leb,
  ◌==◌, nat_eq_test, if◌then◌else◌, Bool-cases, inl, inr, arith,
}
use nass.Oidc.{second}

pub data Waited : Type 0 where
  responds cancelled : ℕ → Waited
  invalid_url : Waited

module _ (get : ℕ → ℕ × Bool) (deadline interval : ℕ) where
  -- One round, from time `now`, with what the rounds after it come to.
  abbrev pub wait_round : ℕ → Option Waited → Option Waited
  wait_round now rest =
      let later = now + (get now).0 in
      if leb deadline now
      then some (cancelled now)
      else if (get now).1
      then some (responds later)
      else if leb deadline (later + interval)
      then some (cancelled deadline)
      else rest

  abbrev pub next_round : ℕ → ℕ
  next_round now = now + (get now).0 + interval

  -- `none` means that the rounds given were not enough.
  unfoldable pub wait_loop : ℕ → ℕ → Option Waited
  wait_loop zero now = none
  wait_loop (suc rounds) now = let rest = wait_loop rounds (next_round now) in wait_round now rest

  wait_loop-suc :
      (rounds now : ℕ)
      → wait_loop (suc rounds) now ≡ wait_round now (wait_loop rounds (next_round now))
  unfolding wait_loop
  wait_loop-suc rounds now = refl

  -- Any response counts; there was one to the last request, which was started before the deadline.
  abbrev pub IsWaited : Bool → ℕ → Waited → Type 0
  IsWaited parsed start (responds at) =
      (asked : ℕ) × (start ≤ asked)
      × (asked < deadline)
      × ((get asked).1 ≡ true)
      × (at ≡ asked + (get asked).0)
  IsWaited parsed start (cancelled at) = deadline ≤ at
  IsWaited parsed start invalid_url = parsed ≡ false

  IsWaited-later :
      (start later : ℕ) (w : Waited) → start ≤ later → IsWaited true later w → IsWaited true start w
  IsWaited-later start later (responds at) le (asked, from, before, ok, e) =
      (asked, omega arith, before, ok, e)
  IsWaited-later start later (cancelled at) le h = h
  IsWaited-later start later invalid_url le h = h

  last_round :
      (now : ℕ) (rest : Option Waited) → deadline ≤ now → wait_round now rest ≡ some (cancelled now)
  last_round now rest h = ground arith

  round-IsWaited :
      (now : ℕ) (rest : Option Waited)
      → (w : Waited) × (rest ≡ some w) × IsWaited true (next_round now) w
      → (w : Waited) × (wait_round now rest ≡ some w) × IsWaited true now w
  round-IsWaited now rest (w, e, waited) = elim (Bool-cases (leb deadline now)) [
    | inl t ↦ (cancelled now, rw t refl, ground arith)
    | inr t ↦ elim (Bool-cases (get now).1) [
      | inl v ↦
          (responds (now + (get now).0), rw (t, v) refl, (now, omega arith, ground arith, v, refl))
      | inr v ↦ elim (Bool-cases (leb deadline (now + (get now).0 + interval))) [
        | inl u ↦ (cancelled deadline, rw (t, v, u) refl, omega arith)
        | inr u ↦ (w, rw (t, v, u) e, IsWaited-later now (next_round now) w (omega arith) waited)
      ]
    ]
  ]

  wait_loop-IsWaited :
      (rounds now : ℕ)
      → 0 < interval
      → deadline ≤ now + rounds * interval
      → (w : Waited) × (wait_loop (suc rounds) now ≡ some w) × IsWaited true now w
  wait_loop-IsWaited zero now pos enough = (
    cancelled now,
    wait_loop-suc zero now ∙ last_round now (wait_loop zero (next_round now)) (omega arith),
    omega arith,
  )
  wait_loop-IsWaited (suc rounds) now pos enough =
      let (w, e, waited) =
        round-IsWaited now (wait_loop (suc rounds) (next_round now))
          (wait_loop-IsWaited rounds (next_round now) pos (grind arith)) in
      (w, wait_loop-suc (suc rounds) now ∙ e, waited)

-- `if interval == 0 { interval = time.Second }`
abbrev pub interval_or_second : ℕ → ℕ
interval_or_second interval = if interval == 0 then second else interval

-- The rounds that are given: one for each nanosecond up to the deadline is more than enough.
abbrev pub wait_rounds : (ℕ → ℕ × Bool) → ℕ → ℕ → ℕ → Option Waited
wait_rounds get deadline interval now =
    wait_loop get deadline (interval_or_second interval) (suc deadline) now

-- `parsed` is whether url.Parse takes the target.
unfoldable pub wait_for : Bool → (ℕ → ℕ × Bool) → ℕ → ℕ → ℕ → Option Waited
unfolding wait_loop
wait_for parsed get deadline interval now =
    if parsed then wait_rounds get deadline interval now else some invalid_url

interval_pos : (interval : ℕ) → 0 < interval_or_second interval
interval_pos interval = ground arith

le_mul : (d i : ℕ) → 0 < i → d ≤ d * i
le_mul d i h = grind arith

-- WaitFor ends, whatever the requests come to, once the context has a deadline: it reports a response
-- that it has got, to a request that was started before the deadline, or else that the context was done,
-- which it was; a target that is no URL is reported at once.
pub wait_for-IsWaited :
    (parsed : Bool) (get : ℕ → ℕ × Bool) (deadline interval now : ℕ)
    → (w : Waited) × (wait_for parsed get deadline interval now ≡ some w)
      × IsWaited get deadline (interval_or_second interval) parsed now w
unfolding wait_for
wait_for-IsWaited false get deadline interval now = (invalid_url, refl, refl)
wait_for-IsWaited true get deadline interval now =
    wait_loop-IsWaited get deadline (interval_or_second interval) deadline now
      (interval_pos interval)
      (omega (arith, le_mul deadline (interval_or_second interval) (interval_pos interval)))
