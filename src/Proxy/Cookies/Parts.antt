-- ===== src/Proxy/Cookies/Parts.antt =====
-- Splitting, joining and trimming: the parts of a trimmed text are the parts of the text, the first and
-- the last of them trimmed.
use nass.Common.{
  ℕ, ◌≡◌, refl, sym, ap, ◌∙◌, true, false, inl, inr, List, [], ◌∷◌, Text, split, before_part,
  trim_left, trim_right, cons_unless_space, is_space, ◌==◌, nat_eq_test, nat_eq_iff, Bool-cases,
  HasNo, split-HasNo, split-All,
}

-- The last part trimmed at its end.
abbrev pub trim_last : List Text → List Text
trim_last [] = []
trim_last (p ∷ []) = trim_right p ∷ []
trim_last (p ∷ q ∷ parts) = p ∷ trim_last (q ∷ parts)

cons-not_space : (c : ℕ) (s : Text) → is_space c ≡ false → cons_unless_space c s ≡ c ∷ s
cons-not_space c [] h = rw h refl
cons-not_space c (d ∷ s) h = refl

-- A text has a first part.
pub split-cons : (sep : ℕ) (s : Text) → (p : Text) × (parts : List Text) × (split sep s ≡ p ∷ parts)
unfolding split
split-cons sep [] = ([], [], refl)
split-cons sep (c ∷ s) = elim (Bool-cases (c == sep)) [
  | inl t ↦ rw t ([], split sep s, refl)
  | inr t ↦ let (p, parts, e) = split-cons sep s in rw (t, e) (c ∷ p, parts, refl)
]

nil-cons : {A : Type 0} (x : A) (xs : List A) → x ∷ xs ≡ [] → ⊥
nil-cons x xs e = cc

abbrev tail_of : List Text → List Text
tail_of [] = []
tail_of (p ∷ parts) = parts

abbrev head_of : List Text → Text
head_of [] = []
head_of (p ∷ parts) = p

split-single : (sep : ℕ) (s q : Text) → split sep s ≡ q ∷ [] → s ≡ q
unfolding split
split-single sep [] q e = ap head_of e
split-single sep (c ∷ s) q e = elim (Bool-cases (c == sep)) [
  | inl t ↦
      let (p, parts, e') = split-cons sep s in
      absurd (nil-cons p parts (sym e' ∙ ap tail_of (rw t at e)))
  | inr t ↦
      let (p, parts, e') = split-cons sep s in
      let e'' : (c ∷ p) ∷ parts ≡ q ∷ [] = rw (t, e') at e in
      ap (λ r. c ∷ r) (split-single sep s p (e' ∙ ap (λ r. p ∷ r) (ap tail_of e'')))
      ∙ ap head_of e''
]

trim_last-cons : (p : Text) (parts : List Text) → trim_last (p ∷ parts) ≡ [] → ⊥
trim_last-cons p [] e = cc
trim_last-cons p (q ∷ parts) e = cc

HasNo-cons_unless_space :
    (sep c : ℕ) (s : Text) → (c == sep) ≡ false → HasNo sep s → HasNo sep (cons_unless_space c s)
HasNo-cons_unless_space sep c [] h k = elim (Bool-cases (is_space c)) [
  | inl t ↦ rw t tt
  | inr t ↦ rw t (h, tt)
]
HasNo-cons_unless_space sep c (d ∷ s) h k = (h, k)

split-cons_unless_space :
    (sep c : ℕ) (t : Text) (parts : List Text)
    → (c == sep) ≡ false
    → split sep t ≡ trim_last parts
    → split sep (cons_unless_space c t) ≡ trim_last (before_part c parts)
unfolding split trim_right
split-cons_unless_space sep c t [] h e =
    let (p, parts, e') = split-cons sep t in absurd (nil-cons p parts (sym e' ∙ e))
split-cons_unless_space sep c t (p ∷ []) h e =
    let same : t ≡ trim_right p = split-single sep t (trim_right p) e in
    let no_sep : HasNo sep (trim_right p) = (rw e at (split-All sep t)).0 in
    rw same (
      split-HasNo sep (cons_unless_space c (trim_right p))
        (HasNo-cons_unless_space sep c (trim_right p) h no_sep))
split-cons_unless_space sep c [] (p ∷ q ∷ parts) h e =
    absurd (trim_last-cons q parts (sym (ap tail_of e)))
split-cons_unless_space sep c (d ∷ t) (p ∷ q ∷ parts) h e = rw (h, e) refl

-- Trimming the end of a text trims the end of its last part.
pub split-trim_right :
    (sep : ℕ) (s : Text) → is_space sep ≡ false → split sep (trim_right s) ≡ trim_last (split sep s)
unfolding split trim_right
split-trim_right sep [] k = refl
split-trim_right sep (c ∷ s) k = elim (Bool-cases (c == sep)) [
  | inl t ↦
      let same : c ≡ sep = (nat_eq_iff c sep).0 t in
      let (p, parts, e) = split-cons sep s in
      rw (cons-not_space c (trim_right s) (rw same k), t)
        (ap (λ r. [] ∷ r) (split-trim_right sep s k) ∙ rw e refl)
  | inr t ↦
      rw t (split-cons_unless_space sep c (trim_right s) (split sep s) t (split-trim_right sep s k))
]

trim_left-cons_unless_space :
    (c : ℕ) (s : Text) → is_space c ≡ true → trim_left (cons_unless_space c s) ≡ trim_left s
unfolding trim_left
trim_left-cons_unless_space c [] h = rw h refl
trim_left-cons_unless_space c (d ∷ s) h = rw h refl

trim_right-cons_unless_space :
    (c : ℕ) (s : Text)
    → trim_right s ≡ s
    → trim_right (cons_unless_space c s) ≡ cons_unless_space c s
unfolding trim_right
trim_right-cons_unless_space c [] h = elim (Bool-cases (is_space c)) [
  | inl t ↦ rw t refl
  | inr t ↦ rw (t, t) refl
]
trim_right-cons_unless_space c (d ∷ s) h = rw h refl

pub trim_left-trim_right : (s : Text) → trim_left (trim_right s) ≡ trim_right (trim_left s)
unfolding trim_left trim_right
trim_left-trim_right [] = refl
trim_left-trim_right (c ∷ s) = elim (Bool-cases (is_space c)) [
  | inl t ↦ rw t (trim_left-cons_unless_space c (trim_right s) t ∙ trim_left-trim_right s)
  | inr t ↦ rw (t, cons-not_space c (trim_right s) t, t) refl
]

pub trim_right_idem : (s : Text) → trim_right (trim_right s) ≡ trim_right s
unfolding trim_right
trim_right_idem [] = refl
trim_right_idem (c ∷ s) = trim_right-cons_unless_space c (trim_right s) (trim_right_idem s)
