-- ===== src/Common/Bytes.antt =====
-- Texts as Go has them, sequences of bytes, with the operations of package strings in use.
use Prim.Native.Nat.{ℕ}
use Prim.Native.Char.{code}
use Prim.Native.String.{String}
use Prim.Native.Nat.{◌+◌}
use mathlib.Core.Path.{ap₂, ◌≡◌, refl}
use mathlib.Core.Logic.{◌↔◌}
use mathlib.Core.Bool.{Bool, true, false, ◌&&◌, ◌||◌}
use mathlib.Core.List.{List, [], ◌∷◌, ◌++◌}
use native.Mathlib.Omega.{arith}
use nass.Common.Tests.{if◌then◌else◌, leb, Equality, ◌==◌, nat_eq_test}

abbrev pub Text : Type 0
Text = List ℕ

-- The code points of a literal: its bytes, where it is ASCII.
abbrev pub text : String → Text
text String.[] = []
text (String.◌∷◌ c s) = code c ∷ text s

unfoldable pub text_eq : Text → Text → Bool
text_eq [] [] = true
text_eq [] (d ∷ t) = false
text_eq (c ∷ s) [] = false
text_eq (c ∷ s) (d ∷ t) = c == d && text_eq s t

pub text_eq_iff : (s t : Text) → (text_eq s t ≡ true) ↔ (s ≡ t)
unfolding text_eq
text_eq_iff [] [] = (λ _. refl, λ _. refl)
text_eq_iff [] (d ∷ t) = (λ h. cc, λ h. cc)
text_eq_iff (c ∷ s) [] = (λ h. cc, λ h. cc)
text_eq_iff (c ∷ s) (d ∷ t) =
    (λ h. ground (arith, text_eq_iff s t), λ h. ground (arith, text_eq_iff s t))

pub text_eq_refl : (s : Text) → text_eq s s ≡ true
text_eq_refl s = (text_eq_iff s s).1 refl

instance abbrev pub text_eq_test : Equality Text
text_eq_test = record { same = text_eq; same_iff = text_eq_iff }

-- unicode.IsSpace below 0x80; texts are cut at ASCII spaces only.
abbrev pub is_space : ℕ → Bool
is_space c = c == b' ' || leb 9 c && leb c 13

unfoldable pub trim_left : Text → Text
trim_left [] = []
trim_left (c ∷ s) = if is_space c then trim_left s else c ∷ s

abbrev pub cons_unless_space : ℕ → Text → Text
cons_unless_space c [] = if is_space c then [] else c ∷ []
cons_unless_space c (d ∷ s) = c ∷ d ∷ s

unfoldable pub trim_right : Text → Text
trim_right [] = []
trim_right (c ∷ s) = cons_unless_space c (trim_right s)

-- strings.TrimSpace
unfoldable pub trim_space : Text → Text
unfolding trim_left trim_right
trim_space s = trim_right (trim_left s)

abbrev pub is_empty : Text → Bool
is_empty [] = true
is_empty (c ∷ s) = false

abbrev pub lower : ℕ → ℕ
lower c = if leb 65 c && leb c 90 then c + 32 else c

-- strings.ToLower, where all bytes are ASCII.
unfoldable pub to_lower : Text → Text
to_lower [] = []
to_lower (c ∷ s) = lower c ∷ to_lower s

lower_idem : (c : ℕ) → lower (lower c) ≡ lower c
lower_idem c = ground arith

pub to_lower_idem : (s : Text) → to_lower (to_lower s) ≡ to_lower s
unfolding to_lower
to_lower_idem [] = refl
to_lower_idem (c ∷ s) = ap₂ (λ d t. d ∷ t) (lower_idem c) (to_lower_idem s)

-- strings.Split by one byte.
abbrev pub before_part : ℕ → List Text → List Text
before_part c [] = (c ∷ []) ∷ []
before_part c (p ∷ parts) = (c ∷ p) ∷ parts

unfoldable pub split : ℕ → Text → List Text
split sep [] = [] ∷ []
split sep (c ∷ s) = let parts = split sep s in if c == sep then [] ∷ parts else before_part c parts

-- strings.Join with one byte.
abbrev pub append_part : ℕ → Text → List Text → Text → Text
append_part sep p [] joined = p
append_part sep p (q ∷ parts) joined = p ++ sep ∷ joined

unfoldable pub join : ℕ → List Text → Text
join sep [] = []
join sep (p ∷ parts) = append_part sep p parts (join sep parts)

-- strings.HasPrefix
unfoldable pub has_prefix : Text → Text → Bool
has_prefix s [] = true
has_prefix [] (d ∷ t) = false
has_prefix (c ∷ s) (d ∷ t) = c == d && has_prefix s t

-- strings.HasSuffix
unfoldable pub has_suffix : Text → Text → Bool
has_suffix [] t = is_empty t
has_suffix (c ∷ s) t = let rest = has_suffix s t in if (c ∷ s) == t then true else rest

-- strings.Contains
unfoldable pub contains : Text → Text → Bool
contains [] t = has_prefix [] t
contains (c ∷ s) t = let rest = contains s t in if has_prefix (c ∷ s) t then true else rest

-- strings.Fields: what stands between the spaces.
abbrev pub add_to_field : ℕ → List Text → List Text
add_to_field c [] = (c ∷ []) ∷ []
add_to_field c (p ∷ parts) = (c ∷ p) ∷ parts

unfoldable pub split_spaces : Text → List Text
split_spaces [] = [] ∷ []
split_spaces (c ∷ s) =
    let parts = split_spaces s in if is_space c then [] ∷ parts else add_to_field c parts

abbrev pub drop_empty : List Text → List Text
drop_empty [] = []
drop_empty (p ∷ parts) = if is_empty p then drop_empty parts else p ∷ drop_empty parts

unfoldable pub fields : Text → List Text
unfolding split_spaces
fields s = drop_empty (split_spaces s)
