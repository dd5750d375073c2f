-- ===== src/Apps/Qbittorrent/Patched.antt =====
-- The lines that patchConf of internal/apps/qbittorrent leaves where a key was there before.
use nass.Common.{
  ◌≡◌, refl, sym, ap, ◌∙◌, Bool, true, false, List, [], ◌∷◌, Text, ◌==◌, nat_eq_test, text_eq_test,
  text_eq_iff, has_prefix, HasNo, All, Bool-cases, inl, inr, ◌⊎◌, arith,
}
use mathlib.Core.Path.{subst}
use nass.Apps.Qbittorrent.{Setting, key_prefix, wanted, patch_line, patch_lines, is_seen, missing}
use nass.Apps.Qbittorrent.Keys.{
  IsIn, is_well_formed, has_prefix-wanted, prefix_key_inj, well_formed-in, same_setting, IsSetIn,
  wanted-IsSetIn,
}

-- What one line becomes: it stays, and has no other value for a key, or it is set.
abbrev pub IsPatch : List Setting → Text → Text → Bool → Text × Bool → Type 0
IsPatch kv line now changed r =
    ((r ≡ (now, changed)) × IsSetIn kv line)
    ⊎ ((s : Setting) × IsIn s kv × (has_prefix line (key_prefix s) ≡ true) × (r ≡ (wanted s, true)))

cons-IsSetIn :
    (s : Setting) (kv : List Setting) (line : Text)
    → (has_prefix line (key_prefix s) ≡ true → line ≡ wanted s)
    → IsSetIn kv line
    → IsSetIn (s ∷ kv) line
cons-IsSetIn s kv line h set t (inl e) p =
    h (subst (λ x. has_prefix line (key_prefix x) ≡ true) e p) ∙ ap wanted (sym e)
cons-IsSetIn s kv line h set t (inr i) p = set t i p

skipped :
    (s : Setting) (kv : List Setting) (line now : Text) (changed : Bool) (r : Text × Bool)
    → (has_prefix line (key_prefix s) ≡ true → line ≡ wanted s)
    → IsPatch kv line now changed r
    → IsPatch (s ∷ kv) line now changed r
skipped s kv line now changed r h (inl (e, set)) = inl (e, cons-IsSetIn s kv line h set)
skipped s kv line now changed r h (inr (t, i, p, e)) = inr (t, inr i, p, e)

forced :
    (s : Setting) (kv : List Setting) (line now : Text) (changed : Bool) (r : Text × Bool)
    → has_prefix line (key_prefix s) ≡ true
    → IsPatch kv line (wanted s) true r
    → IsPatch (s ∷ kv) line now changed r
forced s kv line now changed r p (inl (e, set)) = inr (s, inl refl, p, e)
forced s kv line now changed r p (inr (t, i, q, e)) = inr (t, inr i, q, e)

pub patch_line-IsPatch :
    (kv : List Setting) (line now : Text) (changed : Bool)
    → IsPatch kv line now changed (patch_line kv line now changed)
unfolding patch_line
patch_line-IsPatch [] line now changed = inl (refl, λ s i p. absurd i)
patch_line-IsPatch (s ∷ kv) line now changed = elim (Bool-cases (has_prefix line (key_prefix s))) [
  | inr f ↦ rw f (
      skipped s kv line now changed _ (λ p. ground (arith, p, f))
        (patch_line-IsPatch kv line now changed))
  | inl p ↦ elim (Bool-cases (line == wanted s)) [
    | inl t ↦ rw p (
        rw t (
          skipped s kv line now changed _ (λ q. (text_eq_iff line (wanted s)).0 t)
            (patch_line-IsPatch kv line now changed)))
    | inr f ↦
        rw p (rw f (forced s kv line now changed _ p (patch_line-IsPatch kv line (wanted s) true)))
  ]
]

-- Where all is set, nothing is done.
patch_line_set :
    (kv : List Setting) (line now : Text) (changed : Bool)
    → IsSetIn kv line
    → patch_line kv line now changed ≡ (now, changed)
unfolding patch_line
patch_line_set [] line now changed set = refl
patch_line_set (s ∷ kv) line now changed set = elim (Bool-cases (has_prefix line (key_prefix s))) [
  | inr f ↦ rw f (patch_line_set kv line now changed (λ t i. set t (inr i)))
  | inl p ↦ rw p (
      rw ((text_eq_iff line (wanted s)).1 (set s (inl refl) p))
        (patch_line_set kv line now changed (λ t i. set t (inr i))))
]

pub patch_lines_set :
    (kv : List Setting) (lines : List Text) (changed : Bool)
    → All (IsSetIn kv) lines
    → patch_lines kv lines changed ≡ (lines, changed)
unfolding patch_lines
patch_lines_set kv [] changed set = refl
patch_lines_set kv (line ∷ lines) changed set =
    rw (patch_line_set kv line line changed set.0)
      (rw (patch_lines_set kv lines changed set.1) refl)

pub missing_none :
    (lines : List Text) (kv : List Setting)
    → ((s : Setting) → IsIn s kv → is_seen lines s ≡ true)
    → missing lines kv ≡ []
unfolding missing
missing_none lines [] h = refl
missing_none lines (s ∷ kv) h = rw (h s (inl refl)) (missing_none lines kv (λ t i. h t (inr i)))

module _ (kv : List Setting) (w : is_well_formed kv ≡ true) where
  patched-IsSetIn :
      (line now : Text) (changed : Bool) (r : Text × Bool)
      → IsPatch kv line line changed r
      → IsSetIn kv r.0
  patched-IsSetIn line now changed r (inl (e, set)) = subst (λ x. IsSetIn kv x.0) (sym e) set
  patched-IsSetIn line now changed r (inr (s, i, p, e)) =
      subst (λ x. IsSetIn kv x.0) (sym e) (wanted-IsSetIn kv w s i)

  -- A key that a line has is still there.
  patched-has_prefix :
      (line : Text) (changed : Bool) (r : Text × Bool) (t : Setting)
      → IsIn t kv
      → IsPatch kv line line changed r
      → has_prefix line (key_prefix t) ≡ true
      → has_prefix r.0 (key_prefix t) ≡ true
  patched-has_prefix line changed r t i (inl (e, set)) p = rw e p
  patched-has_prefix line changed r t i (inr (s, j, q, e)) p =
      let same : s ≡ t =
        same_setting kv s t w j i (
          prefix_key_inj line s.0 t.0 (well_formed-in kv s w j).0 (well_formed-in kv t w i).0 q
            p) in
      rw e (rw same (has_prefix-wanted t.0 t.1))

  patched-HasNo :
      (line : Text) (changed : Bool) (r : Text × Bool)
      → HasNo b'\n' line
      → IsPatch kv line line changed r
      → HasNo b'\n' r.0
  patched-HasNo line changed r h (inl (e, set)) = rw e h
  patched-HasNo line changed r h (inr (s, i, p, e)) = rw e (well_formed-in kv s w i).1

  -- The lines of a file, each without newlines and set.
  abbrev pub AreSet : List Text → Type 0
  AreSet lines = All (IsSetIn kv) lines × All (HasNo b'\n') lines

  pub patch_lines-AreSet :
      (lines : List Text) (changed : Bool)
      → All (HasNo b'\n') lines
      → AreSet (patch_lines kv lines changed).0
  unfolding patch_lines
  patch_lines-AreSet [] changed h = (tt, tt)
  patch_lines-AreSet (line ∷ lines) changed h =
      let one = patch_line-IsPatch kv line line changed in
      let r = patch_line kv line line changed in
      let rest = patch_lines-AreSet lines r.1 h.1 in
      (
        (patched-IsSetIn line line changed r one, rest.0),
        (patched-HasNo line changed r h.0 one, rest.1),
      )

  pub patch_lines-is_seen :
      (lines : List Text) (changed : Bool) (t : Setting)
      → IsIn t kv
      → is_seen lines t ≡ true
      → is_seen (patch_lines kv lines changed).0 t ≡ true
  unfolding patch_lines
  patch_lines-is_seen [] changed t i h = h
  patch_lines-is_seen (line ∷ lines) changed t i h =
      let one = patch_line-IsPatch kv line line changed in
      let r = patch_line kv line line changed in
      elim (Bool-cases (has_prefix line (key_prefix t))) [
        | inl p ↦ rw (patched-has_prefix line changed r t i one p) refl
        | inr f ↦
            let rest = patch_lines-is_seen lines r.1 t i (ground (arith, h, f)) in
            ground (arith, rest)
      ]

  patch_lines_changed : (lines : List Text) → (patch_lines kv lines true).1 ≡ true
  unfolding patch_lines
  patch_lines_changed [] = refl
  patch_lines_changed (line ∷ lines) = elim (patch_line-IsPatch kv line line true) [
    | inl (e, set) ↦ rw e (patch_lines_changed lines)
    | inr (s, i, p, e) ↦ rw e (patch_lines_changed lines)
  ]

  -- A file that is not changed was set.
  pub patch_lines_unchanged :
      (lines : List Text) (changed : Bool)
      → (patch_lines kv lines changed).1 ≡ false
      → All (IsSetIn kv) lines
  unfolding patch_lines
  patch_lines_unchanged [] changed h = tt
  patch_lines_unchanged (line ∷ lines) changed h = elim (patch_line-IsPatch kv line line changed) [
    | inl (e, set) ↦ (set, patch_lines_unchanged lines _ h)
    | inr (s, i, p, e) ↦
        let changed_too : (patch_lines kv lines true).1 ≡ true = patch_lines_changed lines in
        let clash : true ≡ false =
          sym changed_too ∙ ap (λ (r : Text × Bool). (patch_lines kv lines r.1).1) (sym e) ∙ h in
        ground (arith, clash)
  ]
