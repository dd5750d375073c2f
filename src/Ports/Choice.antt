-- ===== src/Ports/Choice.antt =====
-- What SelectBackendPort of internal/apps/ports.go chooses.
use nass.Common.{
  split, ℕ, zero, suc, ◌+◌, ◌-◌, ◌≤◌, ◌<◌, ◌≡◌, refl, Bool, true, false, ◌||◌, inl, inr, Option,
  none, some, List, [], ◌∷◌, Text, ltb, ◌==◌, nat_eq_test, is_empty, trim_space, if◌then◌else◌,
  parse_int, Int64, nonnegative, negative, Bool-cases, nat_eq_iff, ap, arith,
}
use mathlib.Core.Option.{some-injective}
use nass.Ports.{
  out_of_range, invalid_range, in_use, cancelled, no_free_port, Selected, selected, refused,
  is_port_range, range_of, range_of_parts, parse_port_range, default_backend_port_range, scan,
  select_in, select_backend_port,
}

-- A parsed range is one of ports, from the lower to the higher.
abbrev pub IsPortRange : ℕ → ℕ → Type 0
IsPortRange start end = (1 ≤ start) × (start ≤ end) × (end ≤ 65535)

bounds : (n m : ℕ) → is_port_range n m ≡ true → IsPortRange n m
bounds n m t = (ground (arith, t), ground (arith, t), ground (arith, t))

none-some : {A : Type 0} {a : A} → none ≡ some a → ⊥
none-some e = cc

range_of-IsPortRange :
    (a b : Option Int64) (start end : ℕ) → range_of a b ≡ some (start, end) → IsPortRange start end
range_of-IsPortRange none b start end e = cc
range_of-IsPortRange (some (negative n)) b start end e = cc
range_of-IsPortRange (some (nonnegative n)) none start end e = cc
range_of-IsPortRange (some (nonnegative n)) (some (negative m)) start end e = cc
range_of-IsPortRange (some (nonnegative n)) (some (nonnegative m)) start end e =
    elim (Bool-cases (is_port_range n m)) [
      | inl t ↦
          let same : (n, m) ≡ (start, end) = some-injective (n, m) (start, end) (rw t at e) in
          let low : n ≡ start = ap (λ r. r.0) same in
          let high : m ≡ end = ap (λ r. r.1) same in rw (← low, ← high) (bounds n m t)
      | inr t ↦ absurd (none-some (rw t at e))
    ]

range_of_parts-IsPortRange :
    (parts : List Text) (start end : ℕ)
    → range_of_parts parts ≡ some (start, end)
    → IsPortRange start end
range_of_parts-IsPortRange [] start end e = absurd (none-some e)
range_of_parts-IsPortRange (a ∷ []) start end e = absurd (none-some e)
range_of_parts-IsPortRange (a ∷ b ∷ []) start end e =
    range_of-IsPortRange (parse_int (trim_space a)) (parse_int (trim_space b)) start end e
range_of_parts-IsPortRange (a ∷ b ∷ c ∷ parts) start end e = absurd (none-some e)

parse_port_range-IsPortRange :
    (raw : Text) (start end : ℕ) → parse_port_range raw ≡ some (start, end) → IsPortRange start end
unfolding parse_port_range
parse_port_range-IsPortRange raw start end e =
    range_of_parts-IsPortRange (split b'-' raw) start end e

module _ (is_done : ℕ → Bool) (port_available : ℕ → Bool) (preferred : ℕ) where
  -- The outcome of the scan of `count` ports from `port` on.
  abbrev pub IsScanned : ℕ → ℕ → Selected → Type 0
  IsScanned port count (selected p) =
      (port ≤ p)
      × (p < port + count)
      × (port_available p ≡ true)
      × ((p == preferred) ≡ false)
      × ((q : ℕ) → port ≤ q → q < p → (q == preferred) ≡ false → port_available q ≡ false)
  IsScanned port count (refused no_free_port) =
      (q : ℕ) → port ≤ q → q < port + count → (q == preferred) ≡ false → port_available q ≡ false
  IsScanned port count (refused cancelled) =
      (q : ℕ) × (port ≤ q) × (q < port + count) × (is_done q ≡ true)
  IsScanned port count (refused e) = ⊥

  not_before :
      (q port : ℕ)
      → port ≤ q
      → ((port == preferred) ≡ false → port_available port ≡ false)
      → (suc port ≤ q → port_available q ≡ false)
      → (q == preferred) ≡ false
      → port_available q ≡ false
  not_before q port low first later named = elim (Bool-cases (port == q)) [
    | inl t ↦ let same : port ≡ q = (nat_eq_iff port q).0 t in rw (← same) (first (rw same named))
    | inr t ↦ later (ground (arith, t, low))
  ]

  IsScanned-later :
      (port count : ℕ) (r : Selected)
      → ((port == preferred) ≡ false → port_available port ≡ false)
      → IsScanned (suc port) count r
      → IsScanned port (suc count) r
  IsScanned-later port count (selected p) first (low, high, free, other, before) = (
    omega (arith, low),
    omega (arith, high),
    free,
    other,
    λ q from upto named. not_before q port from first (λ later. before q later upto named) named,
  )
  IsScanned-later port count (refused no_free_port) first h = λ q from upto named.
      not_before q port from first (λ later. h q later (omega (arith, upto)) named) named
  IsScanned-later port count (refused cancelled) first (q, low, high, done) =
      (q, omega (arith, low), omega (arith, high), done)
  IsScanned-later port count (refused out_of_range) first h = absurd h
  IsScanned-later port count (refused invalid_range) first h = absurd h
  IsScanned-later port count (refused in_use) first h = absurd h

  scan-IsScanned :
      (port count : ℕ) → IsScanned port count (scan is_done port_available preferred port count)
  unfolding scan
  scan-IsScanned port zero = λ q low high other. absurd (omega (arith, low, high))
  scan-IsScanned port (suc count) = elim (Bool-cases (is_done port)) [
    | inl t ↦ rw t (port, omega arith, omega arith, t)
    | inr t ↦ elim (Bool-cases (port == preferred)) [
      | inl t' ↦
          rw (t, t') (IsScanned-later port count _ (λ h. cc) (scan-IsScanned (suc port) count))
      | inr t' ↦ elim (Bool-cases (port_available port)) [
        | inl free ↦
            rw (t, t', free)
              (
                omega arith,
                omega arith,
                free,
                t',
                λ q low high other. absurd (omega (arith, low, high)),
              )
        | inr used ↦
            rw (t, t', used)
              (IsScanned-later port count _ (λ h. used) (scan-IsScanned (suc port) count))
      ]
    ]
  ]

  -- What SelectBackendPort makes of a range that is in order.
  abbrev pub IsChosen : Bool → ℕ → ℕ → Selected → Type 0
  IsChosen explicit start end r =
      if port_available preferred
      then r ≡ selected preferred
      else if explicit
      then r ≡ refused in_use
      else IsScanned start (suc end - start) r

  select_in-IsChosen :
      (explicit : Bool) (start end : ℕ)
      → IsChosen explicit start end
          (select_in is_done port_available preferred explicit (some (start, end)))
  select_in-IsChosen explicit start end = elim (Bool-cases (port_available preferred)) [
    | inl t ↦ rw t refl
    | inr t ↦ elim (Bool-cases explicit) [
      | inl t' ↦ rw (t, t') refl
      | inr t' ↦ rw (t, t') (scan-IsScanned start (suc end - start))
    ]
  ]

  -- A port that SelectBackendPort returns is available and between 1 and 65535: it is the preferred one,
  -- or, where that one is taken and was not asked for explicitly, the first of the range that is
  -- available. It gives up with an error for a context that is done only at a port of the range where
  -- it is, and for want of a free port only where none of the range is available, but perhaps the
  -- preferred one.
  pub select_backend_port-IsChosen :
      (port_range : Text) (explicit : Bool) (start end : ℕ)
      → 1 ≤ preferred
      → preferred ≤ 65535
      → parse_port_range (if is_empty port_range then default_backend_port_range else port_range)
        ≡ some (start, end)
      → IsPortRange start end
        × IsChosen explicit start end
            (select_backend_port is_done port_available preferred port_range explicit)
  unfolding select_backend_port
  select_backend_port-IsChosen port_range explicit start end low high parsed =
      let valid : (preferred == 0 || ltb 65535 preferred) ≡ false = ground (arith, low, high) in
      (
        parse_port_range-IsPortRange _ start end parsed,
        rw (valid, parsed) (select_in-IsChosen explicit start end),
      )
