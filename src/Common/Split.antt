-- ===== src/Common/Split.antt =====
-- Texts split at a byte and joined with it.
use Prim.Native.Nat.{ℕ}
use mathlib.Core.Path.{◌≡◌, refl, ap, ◌∙◌}
use mathlib.Core.Logic.{inl, inr}
use mathlib.Core.Bool.{Bool, true, false, not, ◌&&◌}
use mathlib.Core.List.{List, [], ◌∷◌, ◌++◌}
use native.Mathlib.Omega.{arith}
use nass.Common.Tests.{◌==◌, nat_eq_test, nat_eq_iff, Bool-cases}
use nass.Common.Lists.{All}
use nass.Common.Bytes.{Text, split, before_part, join}

-- A part has no separator.
abbrev pub HasNo : ℕ → Text → Type 0
HasNo sep [] = Unit {0}
HasNo sep (c ∷ s) = ((c == sep) ≡ false) × HasNo sep s

pub split-HasNo : (sep : ℕ) (s : Text) → HasNo sep s → split sep s ≡ s ∷ []
unfolding split
split-HasNo sep [] h = refl
split-HasNo sep (c ∷ s) h = rw (h.0, split-HasNo sep s h.1) refl

split-append : (sep : ℕ) (p s : Text) → HasNo sep p → split sep (p ++ sep ∷ s) ≡ p ∷ split sep s
unfolding split
split-append sep [] s h = rw ((nat_eq_iff sep sep).1 refl) refl
split-append sep (c ∷ p) s h = rw (h.0, split-append sep p s h.1) refl

-- Joined parts are split again, unless there are none.
pub split-join :
    (sep : ℕ) (p : Text) (parts : List Text)
    → All (HasNo sep) (p ∷ parts)
    → split sep (join sep (p ∷ parts)) ≡ p ∷ parts
unfolding join
split-join sep p [] all = split-HasNo sep p all.0
split-join sep p (q ∷ parts) all =
    split-append sep p (join sep (q ∷ parts)) all.0
    ∙ ap (λ ps. p ∷ ps) (split-join sep q parts all.1)

before_part-HasNo :
    (sep c : ℕ) (parts : List Text)
    → (c == sep) ≡ false
    → All (HasNo sep) parts
    → All (HasNo sep) (before_part c parts)
before_part-HasNo sep c [] h all = ((h, tt), tt)
before_part-HasNo sep c (p ∷ parts) h all = ((h, all.0), all.1)

pub split-All : (sep : ℕ) (s : Text) → All (HasNo sep) (split sep s)
unfolding split
split-All sep [] = (tt, tt)
split-All sep (c ∷ s) = elim (Bool-cases (c == sep)) [
  | inl t ↦ rw t (tt, split-All sep s)
  | inr t ↦ rw t (before_part-HasNo sep c (split sep s) t (split-All sep s))
]

abbrev pub has_no : ℕ → Text → Bool
has_no sep [] = true
has_no sep (c ∷ s) = not (c == sep) && has_no sep s

pub has_no-HasNo : (sep : ℕ) (s : Text) → has_no sep s ≡ true → HasNo sep s
has_no-HasNo sep [] h = tt
has_no-HasNo sep (c ∷ s) h = (ground (arith, h), has_no-HasNo sep s (ground (arith, h)))
