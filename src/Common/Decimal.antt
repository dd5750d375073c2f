-- ===== src/Common/Decimal.antt =====
-- strconv.FormatInt and strconv.ParseInt in base 10. A number below zero is only known to be one: no
-- row of the tables has such an id.
use Prim.Native.Nat.{ℕ, zero, suc, ◌+◌, ◌*◌, ◌-◌, ◌/◌, ◌%◌, ◌≤◌, ◌<◌}
use mathlib.Core.Path.{ap, ◌≡◌, refl, ◌∙◌}
use mathlib.Core.Logic.{inl, inr}
use mathlib.Core.Bool.{Bool, true, false, ◌&&◌}
use mathlib.Core.Option.{Option, none, some}
use mathlib.Core.List.{[], ◌∷◌}
use native.Mathlib.Omega.{arith}
use nass.Common.Tests.{nat_eq, if◌then◌else◌, ltb, leb, Bool-cases}
use nass.Common.Bytes.{Text}

pub data Int64 : Type 0 where
  nonnegative : ℕ → Int64
  negative : ℕ → Int64

abbrev pub max_int64 : ℕ
max_int64 = 9223372036854775807

abbrev pub is_digit : ℕ → Bool
is_digit c = leb 48 c && leb c 57

-- The digits of `s` after those of `n`.
unfoldable pub parse_digits : ℕ → Text → Option ℕ
parse_digits n [] = some n
parse_digits n (c ∷ s) =
    let rest = parse_digits (n * 10 + (c - 48)) s in if is_digit c then rest else none

abbrev pub parse_some_digits : Text → Option ℕ
parse_some_digits [] = none
parse_some_digits (c ∷ s) = parse_digits 0 (c ∷ s)

abbrev pub in_range : ℕ → (ℕ → Int64) → Option ℕ → Option Int64
in_range limit sign none = none
in_range limit sign (some n) = if leb n limit then some (sign n) else none

unfoldable pub parse_int : Text → Option Int64
parse_int [] = none
parse_int (c ∷ s) =
    if nat_eq c b'-'
    then in_range (max_int64 + 1) negative (parse_some_digits s)
    else if nat_eq c b'+'
    then in_range max_int64 nonnegative (parse_some_digits s)
    else in_range max_int64 nonnegative (parse_some_digits (c ∷ s))

-- The digits of `n`, before those that are written already.
unfoldable pub format_digits : ℕ → ℕ → Text → Text
format_digits zero n rest = (48 + n % 10) ∷ rest
format_digits (suc fuel) n rest =
    let more = format_digits fuel (n / 10) ((48 + n % 10) ∷ rest) in
    if ltb n 10 then (48 + n) ∷ rest else more

-- `n` digits are enough.
unfoldable pub format_int : ℕ → Text
format_int n = format_digits n n []

digit-is_digit : (d : ℕ) → d < 10 → is_digit (48 + d) ≡ true
digit-is_digit d h = ground arith

parse_digits-digit :
    (m d : ℕ) (rest : Text)
    → d < 10
    → parse_digits m ((48 + d) ∷ rest) ≡ parse_digits (m * 10 + d) rest
unfolding parse_digits
parse_digits-digit m d rest h =
    rw (digit-is_digit d h) (ap (λ k. parse_digits k rest) (omega arith))

parse_digits-end : (n : ℕ) → parse_digits n [] ≡ some n
unfolding parse_digits
parse_digits-end n = refl

parse-format_digits :
    (fuel n : ℕ) (rest : Text)
    → n ≤ fuel
    → parse_digits 0 (format_digits fuel n rest) ≡ parse_digits n rest
unfolding format_digits
parse-format_digits zero n rest h =
    parse_digits-digit 0 (n % 10) rest (omega arith)
    ∙ ap (λ k. parse_digits k rest) (omega (arith, h))
parse-format_digits (suc fuel) n rest h = elim (Bool-cases (ltb n 10)) [
  | inl t ↦ rw t (
      parse_digits-digit 0 n rest (ground (arith, t)) ∙ ap (λ k. parse_digits k rest) (omega arith))
  | inr t ↦ rw t (
      parse-format_digits fuel (n / 10) ((48 + n % 10) ∷ rest) (ground (arith, t, h))
      ∙ parse_digits-digit (n / 10) (n % 10) rest (omega arith)
      ∙ ap (λ k. parse_digits k rest) (omega arith))
]

-- The first character of a number is a digit.
abbrev StartsWithDigit : Text → Type 0
StartsWithDigit [] = ⊥
StartsWithDigit (c ∷ s) = (48 ≤ c) × (c ≤ 57)

format_digits-StartsWithDigit :
    (fuel n : ℕ) (rest : Text) → n ≤ fuel → StartsWithDigit (format_digits fuel n rest)
unfolding format_digits
format_digits-StartsWithDigit zero n rest h = (omega arith, omega arith)
format_digits-StartsWithDigit (suc fuel) n rest h = elim (Bool-cases (ltb n 10)) [
  | inl t ↦ rw t (omega arith, ground (arith, t))
  | inr t ↦
      rw t
        (format_digits-StartsWithDigit fuel (n / 10) ((48 + n % 10) ∷ rest) (ground (arith, t, h)))
]

parse_int-digits :
    (s : Text) (n : ℕ)
    → StartsWithDigit s
    → parse_digits 0 s ≡ some n
    → n ≤ max_int64
    → parse_int s ≡ some (nonnegative n)
unfolding parse_int
parse_int-digits [] n d e h = absurd d
parse_int-digits (c ∷ s) n d e h =
    let plain : nat_eq c b'-' ≡ false = ground (arith, d.0) in
    let plain' : nat_eq c b'+' ≡ false = ground (arith, d.0) in
    let fits : leb n max_int64 ≡ true = ground (arith, h) in rw (plain, plain', e, fits) refl

-- What FormatInt writes, ParseInt reads.
pub parse_int-format_int : (n : ℕ) → n ≤ max_int64 → parse_int (format_int n) ≡ some (nonnegative n)
unfolding format_int
parse_int-format_int n h =
    parse_int-digits (format_int n) n (format_digits-StartsWithDigit n n [] (omega arith))
      (parse-format_digits n n [] (omega arith) ∙ parse_digits-end n) h
