-- ===== src/Apps/Qbittorrent/Settled.antt =====
-- What patchConf of internal/apps/qbittorrent makes of a file.
use nass.Common.{
  ℕ, ◌≡◌, refl, sym, ◌∙◌, Bool, true, false, Option, none, List, [], ◌∷◌, ◌++◌, Text, text,
  nat_eq_test, text_eq_test, if◌then◌else◌, split, join, has_prefix, HasNo, has_no-HasNo,
  split-join, split-All, All, Bool-cases, inl, inr, ◌⊎◌, arith,
}
use mathlib.Core.Path.{subst}
use nass.Apps.Qbittorrent.{
  Setting, key_prefix, wanted, patch_lines, is_seen, missing, sort_texts, add_lines, patched_body,
  patch_conf, place,
}
use nass.Apps.Qbittorrent.Keys.{
  IsIn, is_well_formed, has_prefix-wanted, well_formed-in, IsSetIn, wanted-IsSetIn,
}
use nass.Apps.Qbittorrent.Patched.{
  AreSet, patch_lines_set, missing_none, patch_lines-AreSet, patch_lines-is_seen,
  patch_lines_unchanged,
}
use nass.Common.{keep_if}
use nass.Apps.Qbittorrent.Others.{
  Within, skips, is_other, keep_if-Within, add_lines-Within, patch_lines-Within,
}
use nass.Apps.Qbittorrent.Insertion.{
  All-sort_texts, All-add_lines, any_of-sort_texts, add_lines-new, add_lines-old,
}

no_equals : (line k : Text) → HasNo b'=' line → has_prefix line (k ++ b'=' ∷ []) ≡ true → ⊥
unfolding has_prefix
no_equals [] [] h p = ground (arith, p)
no_equals [] (c ∷ k) h p = ground (arith, p)
no_equals (d ∷ line) [] h p = ground (arith, p, h.0)
no_equals (d ∷ line) (c ∷ k) h p = no_equals line k h.1 (ground (arith, p))

all_seen :
    (b : Bool) (t : Text) (rest : List Text)
    → (if b then rest else t ∷ rest) ≡ []
    → (b ≡ true) × (rest ≡ [])
all_seen true t rest e = (refl, e)
all_seen false t rest e = absurd (cc)

missing-seen :
    (lines : List Text) (kv : List Setting)
    → missing lines kv ≡ []
    → (s : Setting) → IsIn s kv
    → is_seen lines s ≡ true
unfolding missing
missing-seen lines [] e s i = absurd i
missing-seen lines (t ∷ kv) e s (inl same) = rw same (all_seen (is_seen lines t) _ _ e).0
missing-seen lines (t ∷ kv) e s (inr i) =
    missing-seen lines kv (all_seen (is_seen lines t) _ _ e).1 s i

missing-new :
    (lines : List Text) (kv : List Setting) (s : Setting)
    → IsIn s kv
    → (is_seen lines s ≡ true) ⊎ (is_seen (missing lines kv) s ≡ true)
unfolding missing
missing-new lines [] s i = absurd i
missing-new lines (t ∷ kv) s (inl same) = elim (Bool-cases (is_seen lines t)) [
  | inl y ↦ inl (rw same y)
  | inr n ↦ inr (rw n (rw same (rw (has_prefix-wanted t.0 t.1) refl)))
]
missing-new lines (t ∷ kv) s (inr i) = elim (missing-new lines kv s i) [
  | inl y ↦ inl y
  | inr y ↦ inr (ground (arith, y))
]

All-missing :
    (P : Text → Type 0) (lines : List Text) (kv : List Setting)
    → ((s : Setting) → IsIn s kv → P (wanted s))
    → All P (missing lines kv)
unfolding missing
All-missing P lines [] h = tt
All-missing P lines (s ∷ kv) h =
    let first = h s (inl refl) in
    let rest = All-missing P lines kv (λ t i. h t (inr i)) in
    elim (Bool-cases (is_seen lines s)) [ inl y ↦ rw y rest | inr n ↦ rw n (first, rest) ]

module _ (kv : List Setting) (w : is_well_formed kv ≡ true) where
  no_key-IsSetIn : (line : Text) → HasNo b'=' line → IsSetIn kv line
  no_key-IsSetIn line h s i p = absurd (no_equals line s.0 h p)

  AreSeen : List Text → Type 0
  AreSeen lines = (s : Setting) → IsIn s kv → is_seen lines s ≡ true

  added-AreSet :
      (lines new : List Text) (at : Option ℕ)
      → AreSet kv w lines
      → AreSet kv w new
      → AreSet kv w (add_lines lines (sort_texts new) at)
  added-AreSet lines new at old fresh = (
    All-add_lines (IsSetIn kv) lines (sort_texts new) at (no_key-IsSetIn [] tt)
        (no_key-IsSetIn (text "[Preferences]") (has_no-HasNo b'=' (text "[Preferences]") refl))
        old.0 (All-sort_texts (IsSetIn kv) new fresh.0),
    All-add_lines (HasNo b'\n') lines (sort_texts new) at tt
        (has_no-HasNo b'\n' (text "[Preferences]") refl) old.1
        (All-sort_texts (HasNo b'\n') new fresh.1),
  )

  added-AreSeen :
      (lines now new : List Text) (at : Option ℕ)
      → ((s : Setting) → IsIn s kv → is_seen lines s ≡ true → is_seen now s ≡ true)
      → missing lines kv ≡ new
      → AreSeen (add_lines now (sort_texts new) at)
  unfolding AreSeen
  added-AreSeen lines now new at keep e s i = elim (missing-new lines kv s i) [
    | inl y ↦
        add_lines-old (λ line. has_prefix line (key_prefix s)) now (sort_texts new) at (keep s i y)
    | inr y ↦
        add_lines-new (λ line. has_prefix line (key_prefix s)) now (sort_texts new) at
          (any_of-sort_texts (λ line. has_prefix line (key_prefix s)) new
            ∙ subst (λ l. is_seen l s ≡ true) e y)
  ]

  -- The file has every setting, and no other value for one, and is left alone the next time; and it has
  -- the lines of the other file that no setting is about, in their order.
  abbrev pub IsSettled : Text → Text → Type 0
  IsSettled body out =
      ((s : Setting) → IsIn s kv → is_seen (split b'\n' out) s ≡ true)
      × All (IsSetIn kv) (split b'\n' out)
      × (patch_conf out kv ≡ (out, false))
      × Within (keep_if (is_other kv) (split b'\n' body)) (split b'\n' out)

  set-IsSettled :
      (body out : Text)
      → AreSeen (split b'\n' out)
      → All (IsSetIn kv) (split b'\n' out)
      → Within (keep_if (is_other kv) (split b'\n' body)) (split b'\n' out)
      → IsSettled body out
  unfolding AreSeen patch_conf
  set-IsSettled body out seen set others = (
    seen,
    set,
    rw (patch_lines_set kv (split b'\n' out) false set)
        (rw (missing_none (split b'\n' out) kv seen) refl),
    others,
  )

  joined-IsSettled :
      (body : Text) (lines : List Text)
      → AreSet kv w lines
      → AreSeen lines
      → Within (keep_if (is_other kv) (split b'\n' body)) lines
      → IsSettled body (join b'\n' lines)
  unfolding AreSeen join split
  joined-IsSettled body [] set seen others =
      set-IsSettled body [] (λ s i. let none_there = seen s i in ground (arith, none_there))
        (no_key-IsSetIn [] tt, tt) (skips [] others)
  joined-IsSettled body (line ∷ lines) set seen others =
      let same = sym (split-join b'\n' line lines set.1) in
      set-IsSettled body (join b'\n' (line ∷ lines)) (subst AreSeen same seen)
        (subst (All (IsSetIn kv)) same set.0)
        (subst (Within (keep_if (is_other kv) (split b'\n' body))) same others)

  module _ (body : Text) where
    abbrev pub old_lines : List Text
    old_lines = split b'\n' body

    abbrev pub patched : List Text × Bool
    patched = patch_lines kv old_lines false

    old-AreSet : AreSet kv w patched.0
    old-AreSet = patch_lines-AreSet kv w old_lines false (split-All b'\n' body)

    body-IsSettled :
        (new : List Text)
        → missing old_lines kv ≡ new
        → IsSettled body (patched_body body patched new).0
    unfolding AreSeen
    body-IsSettled [] e =
        let seen = missing-seen old_lines kv e in
        elim (Bool-cases patched.1) [
          | inl t ↦ rw t (
              joined-IsSettled body patched.0 old-AreSet
                (λ s i. patch_lines-is_seen kv w old_lines false s i (seen s i))
                (patch_lines-Within kv old_lines false))
          | inr f ↦ rw f (
              set-IsSettled body body seen (patch_lines_unchanged kv w old_lines false f)
                (keep_if-Within (is_other kv) old_lines))
        ]
    body-IsSettled (m ∷ new) e =
        let fresh : AreSet kv w (m ∷ new) = subst (AreSet kv w) e (
          All-missing (IsSetIn kv) old_lines kv (λ s i. wanted-IsSetIn kv w s i),
          All-missing (HasNo b'\n') old_lines kv (λ s i. (well_formed-in kv s w i).1),
        ) in
        let at = place patched.0 0 false none in
        joined-IsSettled body (add_lines patched.0 (sort_texts (m ∷ new)) at)
          (added-AreSet patched.0 (m ∷ new) at old-AreSet fresh)
          (added-AreSeen old_lines patched.0 (m ∷ new) at
            (λ s i y. patch_lines-is_seen kv w old_lines false s i y) e)
          (add_lines-Within _ patched.0 (sort_texts (m ∷ new)) at
            (patch_lines-Within kv old_lines false))

    -- Whatever the file was: in what patchConf makes of it each setting has a line, every line that has
    -- the key of a setting has its value, all lines that have no such key are kept in their order, and a
    -- further call changes nothing and says so. The keys are different and have no `=`, and the
    -- settings have no newlines.
    pub patch_conf-IsSettled : IsSettled body (patch_conf body kv).0
    unfolding patch_conf
    patch_conf-IsSettled = body-IsSettled (missing old_lines kv) refl
