-- ===== src/Portal/Navigation/Safety.antt =====
-- Where safeNext of internal/portal/portal.go can lead.
use nass.Common.{
  has_prefix, has_suffix, ◌≡◌, refl, ap, Bool, true, false, not, ◌&&◌, ◌||◌, ◌⊎◌, inl, inr, Option,
  none, some, [], ◌∷◌, ◌++◌, Text, text, is_empty, ◌==◌, nat_eq_test, text_eq_test, text_eq_iff,
  to_lower, Bool-cases,
}
use nass.Portal.Navigation.{
  ParsedUrl, has_backslash, is_path_on_host, is_wrong_scheme, is_own_host, safe_url, safe_next,
}

has_suffix-split : (s t : Text) → has_suffix s t ≡ true → (p : Text) × (s ≡ p ++ t)
unfolding has_suffix
has_suffix-split [] [] h = ([], refl)
has_suffix-split [] (d ∷ t) h = cc
has_suffix-split (c ∷ s) t h = elim (Bool-cases ((c ∷ s) == t)) [
  | inl e ↦ ([], (text_eq_iff (c ∷ s) t).0 e)
  | inr e ↦ let (p, same) = has_suffix-split s t (rw e at h) in (c ∷ p, ap (λ r. c ∷ r) same)
]

-- Both hold.
both : (a b : Bool) → a && b ≡ true → (a ≡ true) × (b ≡ true)
both true true h = (refl, refl)
both true false h = cc
both false b h = cc

either : (a b : Bool) → a || b ≡ true → (a ≡ true) ⊎ (b ≡ true)
either true b h = inl refl
either false b h = inr h

not-true : (b : Bool) → not b ≡ true → b ≡ false
not-true true h = cc
not-true false h = refl

neither : (a b : Bool) → a && b ≡ false → (a ≡ false) ⊎ (b ≡ false)
neither true b h = inr h
neither false b h = inl refl

or-false : (a b : Bool) → a || b ≡ false → (a ≡ false) × (b ≡ false)
or-false true b h = cc
or-false false b h = (refl, h)

not-false : (b : Bool) → not b ≡ false → b ≡ true
not-false true h = refl
not-false false h = cc

module _ (base_host : Text) (https : Bool) where
  -- The base host, or a name below it.
  abbrev pub IsOwnHost : Text → Type 0
  IsOwnHost host =
      (host ≡ to_lower base_host) ⊎ ((p : Text) × (host ≡ p ++ b'.' ∷ to_lower base_host))

  -- A path on the portal's own host that is not read as another host, or an address on a host of its
  -- own, with https wherever the portal has it.
  abbrev pub IsOwn : Text → ParsedUrl → Type 0
  IsOwn raw u =
      ((u.scheme ≡ [])
        × (u.host ≡ [])
        × (has_prefix u.path (text "/") ≡ true)
        × (has_prefix raw (text "//") ≡ false))
      ⊎ (((u.scheme ≡ text "https") ⊎ ((u.scheme ≡ text "http") × (https ≡ false)))
          × IsOwnHost (to_lower u.hostname))

  abbrev pub IsSafe : (Text → Option ParsedUrl) → Text → Text → Type 0
  IsSafe url_parse raw next =
      (next ≡ text "/")
      ⊎ ((next ≡ raw)
          × (has_backslash raw ≡ false)
          × (u : ParsedUrl) × (url_parse raw ≡ some u)
          × IsOwn raw u)

  empty-nil : (s : Text) → is_empty s ≡ true → s ≡ []
  empty-nil [] h = refl
  empty-nil (c ∷ s) h = cc

  right_scheme :
      (scheme : Text)
      → is_wrong_scheme base_host https scheme ≡ false
      → (scheme ≡ text "https") ⊎ ((scheme ≡ text "http") × (https ≡ false))
  right_scheme scheme h = elim (neither _ _ h) [
    | inl e ↦ inl ((text_eq_iff scheme (text "https")).0 (not-false _ e))
    | inr e ↦
        let (plain, insecure) = or-false _ _ e in
        inr ((text_eq_iff scheme (text "http")).0 (not-false _ plain), insecure)
  ]

  own_host : (host : Text) → is_own_host base_host https host ≡ true → IsOwnHost host
  own_host host h = elim (either _ _ (both _ _ h).1) [
    | inl e ↦ inl ((text_eq_iff host (to_lower base_host)).0 e)
    | inr e ↦ inr (has_suffix-split host (b'.' ∷ to_lower base_host) e)
  ]

  safe_url-IsOwn :
      (raw : Text) (u : ParsedUrl)
      → (safe_url base_host https raw (some u) ≡ text "/")
        ⊎ ((safe_url base_host https raw (some u) ≡ raw) × IsOwn raw u)
  safe_url-IsOwn raw u = elim (Bool-cases (is_empty u.scheme && is_empty u.host)) [
    | inl t ↦
        let (no_scheme, no_host) = both (is_empty u.scheme) (is_empty u.host) t in
        elim (Bool-cases (is_path_on_host raw u)) [
          | inl t' ↦
              let (rooted, single) = both _ _ t' in
              rw (t, t')
                (inr (
                  refl,
                  inl (
                    empty-nil u.scheme no_scheme,
                    empty-nil u.host no_host,
                    rooted,
                    not-true _ single,
                  ),
                ))
          | inr t' ↦ rw (t, t') (inl refl)
        ]
    | inr t ↦ elim (Bool-cases (is_wrong_scheme base_host https u.scheme)) [
      | inl t' ↦ rw (t, t') (inl refl)
      | inr t' ↦ elim (Bool-cases (is_own_host base_host https (to_lower u.hostname))) [
        | inl t'' ↦
            rw (t, t', t'')
              (inr (refl, inr (right_scheme u.scheme t', own_host (to_lower u.hostname) t'')))
        | inr t'' ↦ rw (t, t', t'') (inl refl)
      ]
    ]
  ]

  safe_url-IsSafe :
      (url_parse : Text → Option ParsedUrl) (raw : Text) (parsed : Option ParsedUrl)
      → has_backslash raw ≡ false
      → url_parse raw ≡ parsed
      → IsSafe url_parse raw (safe_url base_host https raw parsed)
  safe_url-IsSafe url_parse raw none h e = inl refl
  safe_url-IsSafe url_parse raw (some u) h e = elim (safe_url-IsOwn raw u) [
    | inl same ↦ inl same
    | inr (same, own) ↦ inr (same, h, u, e, own)
  ]

  -- After a login the browser is sent to the root, or to the address asked for; the latter only where
  -- it has no backslash and parses, and is a path on the same host that does not begin with two
  -- slashes, or an address on the base host or a name below it, by https wherever the portal has it.
  pub safe_next-IsSafe :
      (url_parse : Text → Option ParsedUrl) (raw : Text)
      → IsSafe url_parse raw (safe_next base_host https url_parse raw)
  unfolding safe_next
  safe_next-IsSafe url_parse raw = elim (Bool-cases (is_empty raw || has_backslash raw)) [
    | inl t ↦ rw t (inl refl)
    | inr t ↦
        rw t (safe_url-IsSafe url_parse raw (url_parse raw) (or-false (is_empty raw) _ t).1 refl)
  ]
