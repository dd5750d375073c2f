-- ===== src/Throttle/Sweep.antt =====
-- The sweep of throttle.go: keys that nobody asks for again do not accumulate.
use nass.Common.{
  ℕ, ◌-◌, ◌≤◌, ◌≡◌, ◌≢◌, refl, ◌∙◌, sym, Bool, true, Option, none, some, List, [], ◌∷◌, Text, Dict,
  lookup, keys, ◌==◌, if◌then◌else◌, text_eq_test, any_of, keep_if_idem, Option-cases, inl, inr,
  arith,
}
use nass.Throttle.{Throttle, recent, is_recent, trim, trim_each, sweep}
use nass.Throttle.Trim.{trimmed, kept, lookup-trim}

abbrev names : Text → List Text → Bool
names k = any_of (λ j. j == k)

kept_idem :
    (now window : ℕ) (l : List ℕ) → recent now window l ≡ l → trimmed now window (kept l) ≡ kept l
kept_idem now window [] e = refl
kept_idem now window (ts ∷ l) e = rw e

trimmed_idem :
    (now window : ℕ) (o : Option (List ℕ))
    → trimmed now window (trimmed now window o) ≡ trimmed now window o
trimmed_idem now window none = refl
trimmed_idem now window (some l) =
    kept_idem now window (recent now window l) (keep_if_idem (is_recent now window) l)

lookup-trim_each :
    (now window : ℕ) (ks : List Text) (j : Text) (m : Dict (List ℕ))
    → lookup j (trim_each now window ks m)
      ≡ (if names j ks then trimmed now window (lookup j m) else lookup j m)
unfolding trim_each
lookup-trim_each now window [] j m = refl
lookup-trim_each now window (k ∷ ks) j m =
    lookup-trim_each now window ks j (trim now window k m)
    ∙ rw (lookup-trim now window k j m) (ground (arith, trimmed_idem now window (lookup j m)))

names-keys :
    (j : Text) (m : Dict (List ℕ)) (l : List ℕ) → lookup j m ≡ some l → names j (keys m) ≡ true
unfolding lookup keys
names-keys j [] l e = cc
names-keys j ((k, v) ∷ m) l e = ground (arith, names-keys j m l)

-- A swept map holds under a key what trimming that key leaves.
lookup-trim_each-keys :
    (now window : ℕ) (j : Text) (m : Dict (List ℕ))
    → lookup j (trim_each now window (keys m) m) ≡ trimmed now window (lookup j m)
lookup-trim_each-keys now window j m =
    lookup-trim_each now window (keys m) j m ∙ elim (Option-cases (lookup j m)) [
      | inl e ↦ rw e (ground arith)
      | inr (l, e) ↦ rw (names-keys j m l e)
    ]

kept-some : (l l' : List ℕ) → kept l ≡ some l' → (l ≡ l') × (l' ≢ [])
kept-some [] l' e = cc
kept-some (ts ∷ l) l' e = (cc, λ n. cc)

trimmed-some :
    (now window : ℕ) (o : Option (List ℕ)) (l : List ℕ)
    → trimmed now window o ≡ some l
    → (recent now window l ≡ l) × (l ≢ [])
trimmed-some now window none l e = cc
trimmed-some now window (some l') l e =
    let (same, full) = kept-some (recent now window l') l e in
    (rw (← same) (keep_if_idem (is_recent now window) l'), full)

-- When a sweep is due, every key that it leaves has a failure, and only failures within the window.
lookup-sweep :
    (now : ℕ) (t : Throttle) (k : Text) (l : List ℕ)
    → t.window ≤ now - t.last_sweep
    → lookup k (sweep now t).entries ≡ some l
    → (recent now t.window l ≡ l) × (l ≢ [])
unfolding sweep
lookup-sweep now t k l due e =
    trimmed-some now t.window (lookup k t.entries) l
      (sym (lookup-trim_each-keys now t.window k t.entries) ∙ ground arith)
