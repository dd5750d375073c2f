-- ===== src/Db/Rows.antt =====
-- The row operations of SQL: DELETE and UPDATE with a condition, and what a query finds afterwards.
use mathlib.Core.Option.{some-injective}
use nass.Common.{
  ap, Bool-cases, inl, inr, ◌≡◌, refl, Bool, true, false, not, none, some, List, [], ◌∷◌, ◌++◌,
  keep_if, find_if, any_of, All, if◌then◌else◌, arith,
}

module _ {ℓ} {A : Type ℓ} where
  -- `DELETE FROM t WHERE p`
  abbrev pub delete_where : (A → Bool) → List A → List A
  delete_where p [] = []
  delete_where p (x ∷ xs) = if p x then delete_where p xs else x ∷ delete_where p xs

  -- `UPDATE t SET … WHERE p`
  abbrev pub update_where : (A → Bool) → (A → A) → List A → List A
  update_where p f [] = []
  update_where p f (x ∷ xs) = (if p x then f x else x) ∷ update_where p f xs

  -- No row meets the condition.
  abbrev pub NoRow : (A → Bool) → List A → Type 0
  NoRow p [] = Unit {0}
  NoRow p (x ∷ xs) = (p x ≡ false) × NoRow p xs

  pub delete_where-NoRow : (p : A → Bool) (xs : List A) → NoRow p (delete_where p xs)
  delete_where-NoRow p [] = tt
  delete_where-NoRow p (x ∷ xs) = ground (arith, delete_where-NoRow p xs)

  -- Deleting other rows leaves none of these either.
  pub delete_where-NoRow_of :
      (p q : A → Bool) (xs : List A) → NoRow p xs → NoRow p (delete_where q xs)
  delete_where-NoRow_of p q [] h = tt
  delete_where-NoRow_of p q (x ∷ xs) h = ground (arith, delete_where-NoRow_of p q xs h.1)

  pub find_if-NoRow : (p : A → Bool) (xs : List A) → NoRow p xs → find_if p xs ≡ none
  find_if-NoRow p [] h = refl
  find_if-NoRow p (x ∷ xs) h = ground (arith, find_if-NoRow p xs h.1)

  -- A found row meets the condition.
  pub find_if-holds : (p : A → Bool) (xs : List A) {a : A} → find_if p xs ≡ some a → p a ≡ true
  find_if-holds p [] e = cc
  find_if-holds p (x ∷ xs) {a} e = ground (arith, find_if-holds p xs {a = a})

  pub find_if-append :
      (p : A → Bool) (xs ys : List A) → NoRow p xs → find_if p (xs ++ ys) ≡ find_if p ys
  find_if-append p [] ys h = refl
  find_if-append p (x ∷ xs) ys h = ground (arith, find_if-append p xs ys h.1)

  -- A predicate of every row survives a deletion.
  pub All-delete_where {κ} :
      (P : A → Type κ) (p : A → Bool) (xs : List A) → All P xs → All P (delete_where p xs)
  All-delete_where P p [] h = tt
  All-delete_where P p (x ∷ xs) h = ground (arith, All-delete_where P p xs h.1)

  -- What a query that skips the deleted rows finds is not changed.
  pub find_if-delete_where :
      (p q : A → Bool) (xs : List A)
      → ((x : A) → p x ≡ true → q x ≡ false)
      → find_if p (delete_where q xs) ≡ find_if p xs
  find_if-delete_where p q [] h = refl
  find_if-delete_where p q (x ∷ xs) h = ground (arith, h x, find_if-delete_where p q xs h)

  pub any_of-NoRow : (p : A → Bool) (xs : List A) → any_of p xs ≡ false → NoRow p xs
  any_of-NoRow p [] h = tt
  any_of-NoRow p (x ∷ xs) h = ground (arith, any_of-NoRow p xs)

  -- The rows that a deletion spares are kept, in their order.
  pub keep_if-delete_where :
      (p : A → Bool) (xs : List A)
      → keep_if (λ x. not (p x)) (delete_where p xs) ≡ keep_if (λ x. not (p x)) xs
  keep_if-delete_where p [] = refl
  keep_if-delete_where p (x ∷ xs) = ground (arith, keep_if-delete_where p xs)

  pub NoRow-find_if :
      (p q : A → Bool) (xs : List A) {a : A} → NoRow q xs → find_if p xs ≡ some a → q a ≡ false
  NoRow-find_if p q [] h e = cc
  NoRow-find_if p q (x ∷ xs) {a} h e = ground (arith, h.0, NoRow-find_if p q xs {a = a} h.1)

  -- A deletion that spares the row which a query finds.
  pub find_if-spared :
      (p q : A → Bool) (xs : List A) {a : A}
      → find_if p xs ≡ some a
      → q a ≡ false
      → find_if p (delete_where q xs) ≡ some a
  find_if-spared p q [] e h = e
  find_if-spared p q (x ∷ xs) {a} e h = ground (arith, find_if-spared p q xs {a = a})

  pub find_if-append_none :
      (p : A → Bool) (xs ys : List A) → find_if p xs ≡ none → find_if p (xs ++ ys) ≡ find_if p ys
  find_if-append_none p [] ys h = refl
  find_if-append_none p (x ∷ xs) ys h = ground (arith, find_if-append_none p xs ys)

  pub find_if-any_of : (p : A → Bool) (xs : List A) → any_of p xs ≡ false → find_if p xs ≡ none
  find_if-any_of p [] h = refl
  find_if-any_of p (x ∷ xs) h = ground (arith, find_if-any_of p xs)

  -- The rows that a query keeps are kept by a deletion that spares them.
  pub keep_if-spared :
      (p q : A → Bool) (xs : List A)
      → ((x : A) → q x ≡ true → p x ≡ false)
      → keep_if p (delete_where q xs) ≡ keep_if p xs
  keep_if-spared p q [] h = refl
  keep_if-spared p q (x ∷ xs) h = ground (arith, h x, keep_if-spared p q xs h)

  pub All-find_if {κ} :
      (P : A → Type κ) (p : A → Bool) (xs : List A) {a : A} → All P xs → find_if p xs ≡ some a → P a
  All-find_if P p [] h e = cc
  All-find_if P p (x ∷ xs) {a} h e = elim (Bool-cases (p x)) [
    | inl t ↦ let same : x ≡ a = some-injective x a (rw t at e) in rw (← same) h.0
    | inr t ↦ All-find_if P p xs h.1 (rw t at e)
  ]

  pub update_where-NoRow :
      (p : A → Bool) (f : A → A) (xs : List A) → NoRow p xs → update_where p f xs ≡ xs
  update_where-NoRow p f [] h = refl
  update_where-NoRow p f (x ∷ xs) h = rw h.0 (ap (λ ys. x ∷ ys) (update_where-NoRow p f xs h.1))
