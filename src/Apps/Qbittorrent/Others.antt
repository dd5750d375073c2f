-- ===== src/Apps/Qbittorrent/Others.antt =====
-- The lines that patchConf of internal/apps/qbittorrent does not touch.
use mathlib.Core.Path.{subst}
use nass.Common.{
  ℕ, zero, suc, ◌≡◌, refl, sym, ap, ◌∙◌, Bool, true, false, not, Option, none, some, List, [], ◌∷◌,
  ◌++◌, Text, text, nat_eq_test, text_eq_test, any_of, keep_if, is_empty, has_prefix, Bool-cases,
  inl, inr, arith,
}
use nass.Apps.Qbittorrent.{
  Setting, key_prefix, patch_line, patch_lines, insert_at, close_last, add_lines,
}
use nass.Apps.Qbittorrent.Keys.{IsIn}
use nass.Apps.Qbittorrent.Patched.{IsPatch, patch_line-IsPatch}

-- The first list, in its order, among the elements of the second.
pub data Within : List Text → List Text → Type 0 where
  ends : {ys : List Text} → Within [] ys
  takes : {xs ys : List Text} (x : Text) → Within xs ys → Within (x ∷ xs) (x ∷ ys)
  skips : {xs ys : List Text} (y : Text) → Within xs ys → Within xs (y ∷ ys)

-- The line has the key of no setting.
abbrev pub is_other : List Setting → Text → Bool
is_other kv line = not (any_of (λ s. has_prefix line (key_prefix s)) kv)

pub keep_if-Within : (p : Text → Bool) (xs : List Text) → Within (keep_if p xs) xs
keep_if-Within p [] = ends
keep_if-Within p (x ∷ xs) = elim (Bool-cases (p x)) [
  | inl t ↦ rw t (takes x (keep_if-Within p xs))
  | inr f ↦ rw f (skips x (keep_if-Within p xs))
]

Within-left : {xs ys : List Text} (zs : List Text) → Within xs ys → Within xs (ys ++ zs)
Within-left zs ends = ends
Within-left zs (takes x w) = takes x (Within-left zs w)
Within-left zs (skips y w) = skips y (Within-left zs w)

Within-right : (new : List Text) {xs ys : List Text} → Within xs ys → Within xs (new ++ ys)
Within-right [] w = w
Within-right (y ∷ new) w = skips y (Within-right new w)

insert_at-Within :
    {xs ys : List Text} (at : ℕ) (new : List Text) → Within xs ys → Within xs (insert_at at new ys)
unfolding insert_at
insert_at-Within zero new w = Within-right new w
insert_at-Within (suc at) new ends = ends
insert_at-Within (suc at) new (takes x w) = takes x (insert_at-Within at new w)
insert_at-Within (suc at) new (skips y w) = skips y (insert_at-Within at new w)

close_last-append : (ys : List Text) → (more : List Text) × (close_last ys ≡ ys ++ more)
unfolding close_last
close_last-append [] = ([], refl)
close_last-append (y ∷ []) = elim (Bool-cases (is_empty y)) [
  | inl t ↦ ([], rw t refl)
  | inr f ↦ ([] ∷ [], rw f refl)
]
close_last-append (y ∷ z ∷ ys) =
    let (more, e) = close_last-append (z ∷ ys) in (more, ap (λ l. y ∷ l) e)

close_last-Within : (xs ys zs : List Text) → Within xs ys → Within xs (close_last ys ++ zs)
close_last-Within xs ys zs w =
    let (more, e) = close_last-append ys in
    subst (λ l. Within xs (l ++ zs)) (sym e) (Within-left zs (Within-left more w))

pub add_lines-Within :
    (xs ys new : List Text) (at : Option ℕ) → Within xs ys → Within xs (add_lines ys new at)
add_lines-Within xs ys new none w = close_last-Within xs ys (text "[Preferences]" ∷ new) w
add_lines-Within xs ys new (some at) w = insert_at-Within at new w

has_key :
    (kv : List Setting) (s : Setting) (line : Text)
    → IsIn s kv
    → has_prefix line (key_prefix s) ≡ true
    → is_other kv line ≡ false
has_key [] s line i p = absurd i
has_key (t ∷ kv) s line (inl e) p =
    let same : has_prefix line (key_prefix t) ≡ true =
      subst (λ x. has_prefix line (key_prefix x) ≡ true) e p in
    rw same refl
has_key (t ∷ kv) s line (inr i) p = ground (arith, has_key kv s line i p)

patched_other :
    (kv : List Setting) (line : Text) (changed : Bool) (r : Text × Bool)
    → IsPatch kv line line changed r
    → is_other kv line ≡ true
    → r.0 ≡ line
patched_other kv line changed r (inl (e, set)) other = ap (λ x. x.0) e
patched_other kv line changed r (inr (s, i, p, e)) other =
    let clash : true ≡ false = sym other ∙ has_key kv s line i p in ground (arith, clash)

pub patch_lines-Within :
    (kv : List Setting) (lines : List Text) (changed : Bool)
    → Within (keep_if (is_other kv) lines) (patch_lines kv lines changed).0
unfolding patch_lines
patch_lines-Within kv [] changed = ends
patch_lines-Within kv (line ∷ lines) changed =
    let r = patch_line kv line line changed in
    let rest = patch_lines-Within kv lines r.1 in
    elim (Bool-cases (is_other kv line)) [
      | inl t ↦ rw t (
          rw (patched_other kv line changed r (patch_line-IsPatch kv line line changed) t)
            (takes line rest))
      | inr f ↦ rw f (skips r.0 rest)
    ]
