-- ===== src/Apps/Qbittorrent/Keys.antt =====
-- The keys of the settings that internal/apps/qbittorrent forces.
use nass.Common.{
  text_eq, ap₂, ◌≡◌, refl, sym, ap, ◌∙◌, Bool, true, false, not, ◌&&◌, List, [], ◌∷◌, ◌++◌, Text,
  ◌==◌, nat_eq_test, text_eq_test, text_eq_iff, any_of, has_prefix, has_no, HasNo, has_no-HasNo,
  inl, inr, ◌⊎◌, arith,
}
use nass.Apps.Qbittorrent.{Setting, key_prefix, wanted}

abbrev pub IsIn : {A : Type 0} → A → List A → Type 0
IsIn a [] = ⊥
IsIn a (b ∷ bs) = (a ≡ b) ⊎ IsIn a bs

-- No key is there twice or has an `=`, and no setting has a newline.
abbrev pub is_well_formed : List Setting → Bool
is_well_formed [] = true
is_well_formed (s ∷ kv) =
    has_no b'=' s.0
    && (has_no b'\n' (wanted s)
        && (not (any_of (λ (t : Setting). t.0 == s.0) kv) && is_well_formed kv))

pub has_prefix-wanted : (k v : Text) → has_prefix (k ++ b'=' ∷ v) (k ++ b'=' ∷ []) ≡ true
unfolding has_prefix
has_prefix-wanted [] v = refl
has_prefix-wanted (c ∷ k) v = ground (arith, has_prefix-wanted k v)

-- The keys of a line that has two are the same.
pub prefix_key_inj :
    (line k j : Text)
    → HasNo b'=' k
    → HasNo b'=' j
    → has_prefix line (k ++ b'=' ∷ []) ≡ true
    → has_prefix line (j ++ b'=' ∷ []) ≡ true
    → k ≡ j
unfolding has_prefix
prefix_key_inj line [] [] hk hj p q = refl
prefix_key_inj [] [] (d ∷ j) hk hj p q = ground arith
prefix_key_inj (c ∷ line) [] (d ∷ j) hk hj p q = ground arith
prefix_key_inj [] (c ∷ k) j hk hj p q = ground arith
prefix_key_inj (c ∷ line) (d ∷ k) [] hk hj p q = ground arith
prefix_key_inj (c ∷ line) (d ∷ k) (e ∷ j) hk hj p q =
    ap₂ (λ x xs. x ∷ xs) (ground (arith, p, q))
      (prefix_key_inj line k j hk.1 hj.1 (ground (arith, p)) (ground (arith, q)))

not_in :
    (kv : List Setting) (k : Text) (t : Setting)
    → any_of (λ (u : Setting). u.0 == k) kv ≡ false
    → IsIn t kv
    → (t.0 == k) ≡ false
not_in [] k t h i = absurd i
not_in (u ∷ kv) k t h (inl e) = rw e (ground (arith, h))
not_in (u ∷ kv) k t h (inr i) = not_in kv k t (ground (arith, h)) i

-- What is known of a setting among well-formed ones.
pub well_formed-in :
    (kv : List Setting) (s : Setting)
    → is_well_formed kv ≡ true
    → IsIn s kv
    → HasNo b'=' s.0 × HasNo b'\n' (wanted s)
well_formed-in [] s w i = absurd i
well_formed-in (t ∷ kv) s w (inl e) =
    rw e
      (has_no-HasNo b'=' t.0 (ground (arith, w)), has_no-HasNo b'\n' (wanted t) (ground (arith, w)))
well_formed-in (t ∷ kv) s w (inr i) = well_formed-in kv s (ground (arith, w)) i

unequal : (k j : Text) → (k == j) ≡ false → k ≡ j → ⊥
unequal k j h e = let same : text_eq k j ≡ true = (text_eq_iff k j).1 e in ground (arith, h, same)

pub same_setting :
    (kv : List Setting) (s t : Setting)
    → is_well_formed kv ≡ true
    → IsIn s kv
    → IsIn t kv
    → s.0 ≡ t.0
    → s ≡ t
same_setting [] s t w i j e = absurd i
same_setting (u ∷ kv) s t w (inl a) (inl b) e = a ∙ sym b
same_setting (u ∷ kv) s t w (inl a) (inr j) e =
    absurd (
      unequal t.0 u.0 (not_in kv u.0 t (ground (arith, w)) j) (sym e ∙ ap (λ (x : Setting). x.0) a))
same_setting (u ∷ kv) s t w (inr i) (inl b) e =
    absurd
      (unequal s.0 u.0 (not_in kv u.0 s (ground (arith, w)) i) (e ∙ ap (λ (x : Setting). x.0) b))
same_setting (u ∷ kv) s t w (inr i) (inr j) e = same_setting kv s t (ground (arith, w)) i j e

-- A line that has a key of the settings has its value too.
abbrev pub IsSetIn : List Setting → Text → Type 0
IsSetIn kv line =
    (s : Setting) → IsIn s kv → has_prefix line (key_prefix s) ≡ true → line ≡ wanted s

module _ (kv : List Setting) (w : is_well_formed kv ≡ true) where
  pub wanted-IsSetIn : (s : Setting) → IsIn s kv → IsSetIn kv (wanted s)
  wanted-IsSetIn s i t j p = ap wanted (
      same_setting kv s t w i j (
        prefix_key_inj (wanted s) s.0 t.0 (well_formed-in kv s w i).0 (well_formed-in kv t w j).0
          (has_prefix-wanted s.0 s.1) p))
