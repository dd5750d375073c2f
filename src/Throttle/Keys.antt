-- ===== src/Throttle/Keys.antt =====
-- The keys of throttle.go name their budgets without ambiguity.
use nass.Common.{
  ℕ, ◌≡◌, ◌≢◌, refl, sym, false, ◌&&◌, ◌==◌, [], ◌∷◌, ◌++◌, Text, text_eq_test, text_eq_iff, All,
  arith,
}
use nass.Throttle.{user_key, ip_key}

abbrev pub NoBar : Text → Type 0
NoBar = All (λ c. c ≢ b'|')

-- Up to the first bar, the key is the address.
cut_inj : (s t u v : Text) → NoBar s → NoBar t → s ++ b'|' ∷ u ≡ t ++ b'|' ∷ v → (s ≡ t) × (u ≡ v)
cut_inj [] [] u v hs ht e = (refl, cc)
cut_inj [] (d ∷ t) u v hs ht e = absurd (ht.0 (cc))
cut_inj (c ∷ s) [] u v hs ht e = absurd (hs.0 (cc))
cut_inj (c ∷ s) (d ∷ t) u v hs ht e = let (p, q) = cut_inj s t u v hs.1 ht.1 (cc) in (cc, q)

-- Two logins share a user budget only if both the address and the name agree.
pub user_key_inj :
    (i j u v : Text) → NoBar i → NoBar j → user_key i u ≡ user_key j v → (i ≡ j) × (u ≡ v)
unfolding user_key
user_key_inj i j u v hi hj e = cut_inj i j u v hi hj (cc)

pub ip_key_inj : (i j : Text) → ip_key i ≡ ip_key j → i ≡ j
unfolding ip_key
ip_key_inj i j e = cc

pub user_key-ne-ip_key : (i j u : Text) → user_key i u ≢ ip_key j
unfolding user_key ip_key
user_key-ne-ip_key i j u = λ e. absurd (c-ne (cc))
  where
    c-ne : ◌≡◌ {A = ℕ} b'u' b'i' → ⊥
    c-ne h = ground arith

-- The tests on keys are tests on what the keys are made of.
pub user_key_test :
    (i j u v : Text) → NoBar i → NoBar j → (user_key i u == user_key j v) ≡ (i == j && u == v)
user_key_test i j u v hi hj = ground (
  arith,
  text_eq_iff (user_key i u) (user_key j v),
  text_eq_iff i j,
  text_eq_iff u v,
  user_key_inj i j u v hi hj,
)

pub ip_key_test : (i j : Text) → (ip_key i == ip_key j) ≡ (i == j)
ip_key_test i j = ground (arith, text_eq_iff (ip_key i) (ip_key j), text_eq_iff i j, ip_key_inj i j)

pub user_ip_test : (i j u : Text) → (user_key i u == ip_key j) ≡ false
user_ip_test i j u = ground (arith, text_eq_iff (user_key i u) (ip_key j), user_key-ne-ip_key i j u)

pub ip_user_test : (i j u : Text) → (ip_key j == user_key i u) ≡ false
ip_user_test i j u = ground (
  arith,
  text_eq_iff (ip_key j) (user_key i u),
  λ (e : ip_key j ≡ user_key i u). user_key-ne-ip_key i j u (sym e),
)
