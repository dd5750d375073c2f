-- ===== src/Apps/Qbittorrent/Insertion.antt =====
-- The lines that patchConf of internal/apps/qbittorrent adds to a file.
use nass.Common.{
  All-append, ℕ, zero, suc, ◌≡◌, refl, ◌∙◌, Bool, true, Option, none, some, List, [], ◌∷◌, ◌++◌,
  Text, text, nat_eq_test, text_eq_test, any_of, All, arith,
}
use nass.Apps.Qbittorrent.{insert_text, sort_texts, insert_at, close_last, add_lines}

module _ (P : Text → Type 0) where
  All-insert_text : (t : Text) (xs : List Text) → P t → All P xs → All P (insert_text t xs)
  unfolding insert_text
  All-insert_text t [] p h = (p, tt)
  All-insert_text t (x ∷ xs) p h = ground (arith, All-insert_text t xs p h.1)

  pub All-sort_texts : (xs : List Text) → All P xs → All P (sort_texts xs)
  unfolding sort_texts
  All-sort_texts [] h = tt
  All-sort_texts (x ∷ xs) h = All-insert_text x (sort_texts xs) h.0 (All-sort_texts xs h.1)

  All-insert_at : (at : ℕ) (new xs : List Text) → All P new → All P xs → All P (insert_at at new xs)
  unfolding insert_at
  All-insert_at zero new xs k h = All-append P new xs k h
  All-insert_at (suc at) new [] k h = k
  All-insert_at (suc at) new (x ∷ xs) k h = (h.0, All-insert_at at new xs k h.1)

  All-close_last : (xs : List Text) → P [] → All P xs → All P (close_last xs)
  unfolding close_last
  All-close_last [] p h = tt
  All-close_last (x ∷ []) p h = ground arith
  All-close_last (x ∷ y ∷ xs) p h = (h.0, All-close_last (y ∷ xs) p h.1)

  pub All-add_lines :
      (xs new : List Text) (at : Option ℕ)
      → P []
      → P (text "[Preferences]")
      → All P xs
      → All P new
      → All P (add_lines xs new at)
  All-add_lines xs new none p q h k =
      All-append P (close_last xs) (text "[Preferences]" ∷ new) (All-close_last xs p h) (q, k)
  All-add_lines xs new (some at) p q h k = All-insert_at at new xs k h

module _ (p : Text → Bool) where
  append-left : (xs ys : List Text) → any_of p xs ≡ true → any_of p (xs ++ ys) ≡ true
  append-left [] ys h = ground (arith, h)
  append-left (x ∷ xs) ys h = ground (arith, append-left xs ys)

  append-right : (xs ys : List Text) → any_of p ys ≡ true → any_of p (xs ++ ys) ≡ true
  append-right [] ys h = h
  append-right (x ∷ xs) ys h = ground (arith, append-right xs ys h)

  any_of-insert_text : (t : Text) (xs : List Text) → any_of p (insert_text t xs) ≡ any_of p (t ∷ xs)
  unfolding insert_text
  any_of-insert_text t [] = refl
  any_of-insert_text t (x ∷ xs) = ground (arith, any_of-insert_text t xs)

  pub any_of-sort_texts : (xs : List Text) → any_of p (sort_texts xs) ≡ any_of p xs
  unfolding sort_texts
  any_of-sort_texts [] = refl
  any_of-sort_texts (x ∷ xs) =
      any_of-insert_text x (sort_texts xs) ∙ ground (arith, any_of-sort_texts xs)

  insert_at-new :
      (at : ℕ) (new xs : List Text) → any_of p new ≡ true → any_of p (insert_at at new xs) ≡ true
  unfolding insert_at
  insert_at-new zero new xs h = append-left new xs h
  insert_at-new (suc at) new [] h = h
  insert_at-new (suc at) new (x ∷ xs) h = ground (arith, insert_at-new at new xs h)

  insert_at-old :
      (at : ℕ) (new xs : List Text) → any_of p xs ≡ true → any_of p (insert_at at new xs) ≡ true
  unfolding insert_at
  insert_at-old zero new xs h = append-right new xs h
  insert_at-old (suc at) new [] h = ground (arith, h)
  insert_at-old (suc at) new (x ∷ xs) h = ground (arith, insert_at-old at new xs)

  close_last-old : (xs : List Text) → any_of p xs ≡ true → any_of p (close_last xs) ≡ true
  unfolding close_last
  close_last-old [] h = h
  close_last-old (x ∷ []) h = ground (arith, h)
  close_last-old (x ∷ y ∷ xs) h = ground (arith, close_last-old (y ∷ xs))

  pub add_lines-new :
      (xs new : List Text) (at : Option ℕ)
      → any_of p new ≡ true
      → any_of p (add_lines xs new at) ≡ true
  add_lines-new xs new none h =
      append-right (close_last xs) (text "[Preferences]" ∷ new) (ground (arith, h))
  add_lines-new xs new (some at) h = insert_at-new at new xs h

  pub add_lines-old :
      (xs new : List Text) (at : Option ℕ)
      → any_of p xs ≡ true
      → any_of p (add_lines xs new at) ≡ true
  add_lines-old xs new none h =
      append-left (close_last xs) (text "[Preferences]" ∷ new) (close_last-old xs h)
  add_lines-old xs new (some at) h = insert_at-old at new xs h
