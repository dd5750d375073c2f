-- ===== src/Common/Rooted.antt =====
-- Paths from the root: cleaning leaves no `..` in one.
use Prim.Native.Nat.{ℕ}
use mathlib.Core.Path.{subst, ◌≡◌, refl}
use mathlib.Core.Logic.{inl, inr}
use mathlib.Core.Bool.{true, false}
use mathlib.Core.Option.{Option, none, some, some-injective}
use mathlib.Core.List.{List, [], ◌∷◌, ◌++◌}
use native.Mathlib.Omega.{arith}
use nass.Common.Tests.{if◌then◌else◌, ◌==◌, nat_eq_test, Bool-cases}
use nass.Common.Lists.{All}
use nass.Common.Bytes.{Text, text, text_eq, text_eq_test, is_empty, split, join, has_prefix}
use nass.Common.Split.{HasNo, split-join, split-All}
use nass.Common.Paths.{
  is_abs, back, keep_part, clean_parts, put_back, clean, join_path, abs_path, joined_to,
}

-- A part that goes down, with no slash in it.
abbrev pub IsStep : Text → Type 0
IsStep part = ((part == text "..") ≡ false) × HasNo b'/' part

-- No part of the path goes up.
abbrev pub GoesDown : Text → Type 0
GoesDown path = All IsStep (split b'/' path)

back-IsStep : (kept : List Text) → All IsStep kept → All IsStep (back true kept)
back-IsStep [] h = tt
back-IsStep (p ∷ kept) h = rw h.0.0 h.1

keep_part-IsStep :
    (part : Text) (kept : List Text)
    → HasNo b'/' part
    → All IsStep kept
    → All IsStep (keep_part true part kept)
keep_part-IsStep part kept n h = elim (Bool-cases (is_empty part)) [
  | inl t ↦ rw t h
  | inr f ↦ elim (Bool-cases (part == text ".")) [
    | inl t ↦ rw f (rw t h)
    | inr g ↦ elim (Bool-cases (part == text "..")) [
      | inl t ↦ rw f (rw g (rw t (back-IsStep kept h)))
      | inr k ↦ rw f (rw g (rw k ((k, n), h)))
    ]
  ]
]

clean_parts-IsStep :
    (parts kept : List Text)
    → All (HasNo b'/') parts
    → All IsStep kept
    → All IsStep (clean_parts true parts kept)
unfolding clean_parts
clean_parts-IsStep [] kept n h = h
clean_parts-IsStep (part ∷ parts) kept n h =
    clean_parts-IsStep parts (keep_part true part kept) n.1 (keep_part-IsStep part kept n.0 h)

put_back-IsStep :
    (kept parts : List Text) → All IsStep kept → All IsStep parts → All IsStep (put_back kept parts)
put_back-IsStep [] parts h k = k
put_back-IsStep (p ∷ kept) parts h k = put_back-IsStep kept (p ∷ parts) h.1 (h.0, k)

steps-HasNo : (parts : List Text) → All IsStep parts → All (HasNo b'/') parts
steps-HasNo [] h = tt
steps-HasNo (p ∷ parts) h = (h.0.1, steps-HasNo parts h.1)

joined-GoesDown : (parts : List Text) → All IsStep parts → GoesDown (b'/' ∷ join b'/' parts)
unfolding split join text_eq
joined-GoesDown [] h = ((refl, tt), ((refl, tt), tt))
joined-GoesDown (p ∷ parts) h =
    ((refl, tt), rw (split-join b'/' p parts (steps-HasNo (p ∷ parts) h)) h)

module _ (path : Text) (rooted : is_abs path ≡ true) where
  pub clean-GoesDown : GoesDown (clean path)
  unfolding clean
  clean-GoesDown = rw rooted (
      joined-GoesDown _ (
        put_back-IsStep _ [] (clean_parts-IsStep (split b'/' path) [] (split-All b'/' path) tt) tt))

  pub clean-is_abs : is_abs (clean path) ≡ true
  unfolding clean has_prefix
  clean-is_abs = rw rooted refl

joined_is_abs :
    (c : ℕ) (base name : Text) → is_abs (c ∷ base) ≡ true → is_abs (c ∷ base ++ b'/' ∷ name) ≡ true
unfolding has_prefix
joined_is_abs c base name h = h

empty_is_no_root : is_abs [] ≡ true → ⊥
unfolding has_prefix
empty_is_no_root h = ground (arith, h)

pub join_path-is_abs : (base name : Text) → is_abs base ≡ true → is_abs (join_path base name) ≡ true
unfolding join_path
join_path-is_abs [] name h = absurd (empty_is_no_root h)
join_path-is_abs (c ∷ base) name h =
    clean-is_abs (c ∷ base ++ b'/' ∷ name) (joined_is_abs c base name h)

pub join_path-GoesDown : (base name : Text) → is_abs base ≡ true → GoesDown (join_path base name)
unfolding join_path
join_path-GoesDown [] name h = absurd (empty_is_no_root h)
join_path-GoesDown (c ∷ base) name h =
    clean-GoesDown (c ∷ base ++ b'/' ∷ name) (joined_is_abs c base name h)

joined_to-is_abs :
    (working_dir : Option Text) (path absolute : Text)
    → ((dir : Text) → working_dir ≡ some dir → is_abs dir ≡ true)
    → joined_to path working_dir ≡ some absolute
    → is_abs absolute ≡ true
joined_to-is_abs none path absolute from e = absurd (cc)
joined_to-is_abs (some dir) path absolute from e =
    subst (λ p. is_abs p ≡ true) (some-injective (join_path dir path) absolute e)
      (join_path-is_abs dir path (from dir refl))

pub abs_path-is_abs :
    (working_dir : Option Text) (path absolute : Text)
    → ((dir : Text) → working_dir ≡ some dir → is_abs dir ≡ true)
    → abs_path working_dir path ≡ some absolute
    → is_abs absolute ≡ true
abs_path-is_abs working_dir path absolute from e = elim (Bool-cases (is_abs path)) [
  | inl t ↦
      let same : some (clean path) ≡ some absolute =
        subst (λ b. (if b then some (clean path) else joined_to path working_dir) ≡ some absolute) t
          e in
      subst (λ p. is_abs p ≡ true) (some-injective (clean path) absolute same) (clean-is_abs path t)
  | inr f ↦ joined_to-is_abs working_dir path absolute from (
      subst (λ b. (if b then some (clean path) else joined_to path working_dir) ≡ some absolute) f
        e)
]
