-- ===== src/Apps/Registry.antt =====
-- The registry of internal/apps/app.go: what All lists does not depend on the order of the map.
use nass.Common.{
  ℕ, ◌≡◌, refl, ap, ◌∙◌, true, false, not, inl, inr, List, [], ◌∷◌, Text, ◌==◌, nat_eq_test,
  text_eq_test, Dict, Bool-cases, if◌then◌else◌, arith,
}
use nass.Common.{suc, ◌+◌, text_eq, sym}
use nass.Apps.{Spec, text_gt, sift, sift_all, turned, specs_of, all}

text_gt_total : (s t : Text) → (s == t) ≡ false → text_gt s t ≡ not (text_gt t s)
unfolding text_gt text_eq
text_gt_total [] [] h = cc
text_gt_total [] (d ∷ t) h = refl
text_gt_total (c ∷ s) [] h = refl
text_gt_total (c ∷ s) (d ∷ t) h = ground (arith, text_gt_total s t)

text_gt_trans : (h x y : Text) → text_gt h x ≡ true → text_gt h y ≡ false → text_gt y x ≡ true
unfolding text_gt
text_gt_trans [] x y g k = cc
text_gt_trans (c ∷ h) [] [] g k = cc
text_gt_trans (c ∷ h) [] (d ∷ y) g k = refl
text_gt_trans (c ∷ h) (e ∷ x) [] g k = cc
text_gt_trans (c ∷ h) (e ∷ x) (d ∷ y) g k = ground (arith, text_gt_trans h x y)

sift_comm :
    (x y : Spec) (l : List Spec)
    → (x.name == y.name) ≡ false
    → sift x (sift y l) ≡ sift y (sift x l)
unfolding sift
sift_comm x y [] ne = ground (arith, text_gt_total x.name y.name)
sift_comm x y (h ∷ l) ne = elim (Bool-cases (text_gt h.name x.name)) [
  | inl t ↦ elim (Bool-cases (text_gt h.name y.name)) [
    | inl v ↦ rw (t, v, t) (ap (λ r. h ∷ r) (sift_comm x y l ne))
    | inr v ↦ rw (t, v, text_gt_trans h.name x.name y.name t v, t) refl
  ]
  | inr t ↦ elim (Bool-cases (text_gt h.name y.name)) [
    | inl v ↦ rw (t, v, text_gt_trans h.name y.name x.name v t, t) refl
    | inr v ↦ ground (arith, t, v, text_gt_total x.name y.name)
  ]
]

-- Two orders in which a map may be gone over.
pub data Reordered : List Spec → List Spec → Type 0 where
  same : (l : List Spec) → Reordered l l
  below : (x : Spec) {k l : List Spec} → Reordered k l → Reordered (x ∷ k) (x ∷ l)
  swap :
      (x y : Spec) (l : List Spec) → (x.name == y.name) ≡ false → Reordered (x ∷ y ∷ l) (y ∷ x ∷ l)
  after : {k l m : List Spec} → Reordered k l → Reordered l m → Reordered k m

sift_all-Reordered :
    {k l : List Spec} → Reordered k l → (sorted : List Spec) → sift_all k sorted ≡ sift_all l sorted
unfolding sift_all
sift_all-Reordered (same l) sorted = refl
sift_all-Reordered (below x r) sorted = sift_all-Reordered r (sift x sorted)
sift_all-Reordered (swap x y l ne) sorted = ap (sift_all l) (sym (sift_comm x y sorted ne))
sift_all-Reordered (after q r) sorted = sift_all-Reordered q sorted ∙ sift_all-Reordered r sorted

-- Last first, each name is not below the next.
abbrev pub Descends : List Spec → Type 0
Descends [] = Unit {0}
Descends (x ∷ []) = Unit {0}
Descends (x ∷ y ∷ l) = (text_gt y.name x.name ≡ false) × Descends (y ∷ l)

text_gt_asym : (s t : Text) → text_gt s t ≡ true → text_gt t s ≡ false
unfolding text_gt
text_gt_asym [] t h = cc
text_gt_asym (c ∷ s) [] h = refl
text_gt_asym (c ∷ s) (d ∷ t) h = ground (arith, text_gt_asym s t)

abbrev pub Below : Spec → List Spec → Type 0
Below top [] = Unit {0}
Below top (y ∷ l) = text_gt y.name top.name ≡ false

sift-Below :
    (top x : Spec) (l : List Spec)
    → text_gt top.name x.name ≡ true
    → Below top l
    → Below top (sift x l)
unfolding sift
sift-Below top x [] g b = text_gt_asym top.name x.name g
sift-Below top x (h ∷ l) g b = elim (Bool-cases (text_gt h.name x.name)) [
  | inl t ↦ rw t b
  | inr t ↦ rw t (text_gt_asym top.name x.name g)
]

Descends-cons : (x : Spec) (l : List Spec) → Below x l → Descends l → Descends (x ∷ l)
Descends-cons x [] b d = tt
Descends-cons x (y ∷ l) b d = (b, d)

Descends-Below : (x : Spec) (l : List Spec) → Descends (x ∷ l) → Below x l × Descends l
Descends-Below x [] d = (tt, tt)
Descends-Below x (y ∷ l) d = d

Descends-sift : (x : Spec) (l : List Spec) → Descends l → Descends (sift x l)
unfolding sift
Descends-sift x [] d = tt
Descends-sift x (h ∷ l) d = elim (Bool-cases (text_gt h.name x.name)) [
  | inl t ↦
      let (b, d') = Descends-Below h l d in
      rw t (Descends-cons h (sift x l) (sift-Below h x l t b) (Descends-sift x l d'))
  | inr t ↦ rw t (t, d)
]

Descends-sift_all : (l sorted : List Spec) → Descends sorted → Descends (sift_all l sorted)
unfolding sift_all
Descends-sift_all [] sorted d = d
Descends-sift_all (x ∷ l) sorted d = Descends-sift_all l (sift x sorted) (Descends-sift x sorted d)

-- First first, no name is above the next.
abbrev pub Ascends : List Spec → Type 0
Ascends [] = Unit {0}
Ascends (x ∷ []) = Unit {0}
Ascends (x ∷ y ∷ l) = (text_gt x.name y.name ≡ false) × Ascends (y ∷ l)

abbrev Joins : List Spec → List Spec → Type 0
Joins [] out = Unit {0}
Joins (x ∷ l) [] = Unit {0}
Joins (x ∷ l) (y ∷ out) = text_gt x.name y.name ≡ false

Joins-nil : (l : List Spec) → Joins l []
Joins-nil [] = tt
Joins-nil (x ∷ l) = tt

turned-Ascends :
    (l out : List Spec) → Descends l → Ascends out → Joins l out → Ascends (turned l out)
turned-Ascends [] out d a j = a
turned-Ascends (x ∷ []) [] d a j = tt
turned-Ascends (x ∷ []) (y ∷ out) d a j = (j, a)
turned-Ascends (x ∷ z ∷ l) [] d a j = turned-Ascends (z ∷ l) (x ∷ []) d.1 tt d.0
turned-Ascends (x ∷ z ∷ l) (y ∷ out) d a j = turned-Ascends (z ∷ l) (x ∷ y ∷ out) d.1 (j, a) d.0

-- How often a name occurs.
abbrev pub count : Text → List Spec → ℕ
count name [] = 0
count name (x ∷ l) = if x.name == name then suc (count name l) else count name l

count-sift : (name : Text) (x : Spec) (l : List Spec) → count name (sift x l) ≡ count name (x ∷ l)
unfolding sift
count-sift name x [] = refl
count-sift name x (h ∷ l) = ground (arith, count-sift name x l)

count-sift_all :
    (name : Text) (l sorted : List Spec)
    → count name (sift_all l sorted) ≡ count name l + count name sorted
unfolding sift_all
count-sift_all name [] sorted = omega arith
count-sift_all name (x ∷ l) sorted =
    ground (arith, count-sift_all name l (sift x sorted), count-sift name x sorted)

count-turned :
    (name : Text) (l out : List Spec) → count name (turned l out) ≡ count name l + count name out
count-turned name [] out = omega arith
count-turned name (x ∷ l) out = ground (arith, count-turned name l (x ∷ out))

-- All lists the registered apps by name, each name as often as it is registered; and it lists the same
-- in whatever order the map is gone over, where no two of its apps share a name.
pub all-Ascends :
    (reg reg' : Dict Spec) (name : Text)
    → Reordered (specs_of reg) (specs_of reg')
    → Ascends (all reg) × (count name (all reg) ≡ count name (specs_of reg)) × (all reg ≡ all reg')
unfolding all
all-Ascends reg reg' name r =
    let sifted = sift_all (specs_of reg) [] in
    (
      turned-Ascends sifted [] (Descends-sift_all (specs_of reg) [] tt) tt (Joins-nil sifted),
      omega (arith, count-turned name sifted [], count-sift_all name (specs_of reg) []),
      ap (λ l. turned l []) (sift_all-Reordered r []),
    )
