-- ===== src/Proxy/Manager/Claiming.antt =====
-- The loop of Sync in internal/proxy/manager.go over the apps: no two apps get one host, and no app gets
-- a host of nass itself.
use nass.Common.{
  text_eq_refl, ◌≡◌, refl, sym, ◌∙◌, false, ◌⊎◌, inl, inr, Option, none, some, List, [], ◌∷◌, Text,
  ◌==◌, Bool-cases, text_eq_test, text_eq_iff, Dict, lookup, insert, lookup-insert, to_lower,
  to_lower_idem, All, is_empty, arith,
}
use nass.Db.{no_settings, AppRow, AppSettings, SettingsJson, blank, broken, decoded}
use nass.Db.Rows.{NoRow}
use nass.Proxy.{Handler, Url}
use nass.Proxy.Manager.{
  AppRoute, Problem, RouteManager, Claims, Loaded, is_reserved, claim, claim_all, claim_free,
  claim_built, handler_for, claims_of, resolve_rows, resolve_row, resolve_settings,
}

-- The host of an entry is claimed by its app, is not reserved, and is in lower case.
abbrev pub IsClaim : RouteManager → Dict Text → (Text × (Text × Handler)) → Type 0
IsClaim m claimed e =
    (lookup e.1.0 claimed ≡ some e.0) × (is_reserved m e.1.0 ≡ false) × (to_lower e.1.0 ≡ e.1.0)

abbrev pub IsFree : Text → Dict (Text × Handler) → Type 0
IsFree host entries = NoRow (λ e. e.1.0 == host) entries

abbrev pub HasDistinctHosts : Dict (Text × Handler) → Type 0
HasDistinctHosts [] = Unit {0}
HasDistinctHosts (e ∷ entries) = IsFree e.1.0 entries × HasDistinctHosts entries

abbrev pub AreClaimsOf : RouteManager → Claims → Type 0
AreClaimsOf m c = All (IsClaim m c.claimed) c.desired × HasDistinctHosts c.desired

none-some : {A : Type 0} {a : A} → none ≡ some a → ⊥
none-some e = cc

unclaimed-IsFree :
    (m : RouteManager) (claimed : Dict Text) (host : Text) (entries : Dict (Text × Handler))
    → lookup host claimed ≡ none
    → All (IsClaim m claimed) entries
    → IsFree host entries
unclaimed-IsFree m claimed host [] h all = tt
unclaimed-IsFree m claimed host (e ∷ entries) h all = (
  elim (Bool-cases (e.1.0 == host)) [
    | inl t ↦ absurd (none-some (sym h ∙ rw ((text_eq_iff e.1.0 host).0 t) at all.0.0))
    | inr t ↦ t
  ],
  unclaimed-IsFree m claimed host entries h all.1,
)

All-insert :
    (P : (Text × (Text × Handler)) → Type 0) (k : Text) (v : Text × Handler)
    (entries : Dict (Text × Handler))
    → P (k, v)
    → All P entries
    → All P (insert k v entries)
unfolding insert
All-insert P k v [] h all = (h, tt)
All-insert P k v (e ∷ entries) h all = elim (Bool-cases (e.0 == k)) [
  | inl t ↦ rw t (h, all.1)
  | inr t ↦ rw t (all.0, All-insert P k v entries h all.1)
]

IsFree-insert :
    (host : Text) (k : Text) (v : Text × Handler) (entries : Dict (Text × Handler))
    → (v.0 == host) ≡ false
    → IsFree host entries
    → IsFree host (insert k v entries)
unfolding insert
IsFree-insert host k v [] h free = (h, tt)
IsFree-insert host k v (e ∷ entries) h free = elim (Bool-cases (e.0 == k)) [
  | inl t ↦ rw t (h, free.1)
  | inr t ↦ rw t (free.0, IsFree-insert host k v entries h free.1)
]

eq-sym : (s t : Text) → (s == t) ≡ false → (t == s) ≡ false
eq-sym s t h = ground (arith, text_eq_iff s t, text_eq_iff t s)

HasDistinctHosts-insert :
    (k : Text) (v : Text × Handler) (entries : Dict (Text × Handler))
    → IsFree v.0 entries
    → HasDistinctHosts entries
    → HasDistinctHosts (insert k v entries)
unfolding insert
HasDistinctHosts-insert k v [] free h = (tt, tt)
HasDistinctHosts-insert k v (e ∷ entries) free h = elim (Bool-cases (e.0 == k)) [
  | inl t ↦ rw t (free.1, h.1)
  | inr t ↦ rw t (
    IsFree-insert e.1.0 k v entries (eq-sym e.1.0 v.0 free.0) h.0,
    HasDistinctHosts-insert k v entries free.1 h.1,
  )
]

-- Another claim keeps the claims on other hosts.
IsClaim-insert :
    (m : RouteManager) (claimed : Dict Text) (host name : Text) (entries : Dict (Text × Handler))
    → IsFree host entries
    → All (IsClaim m claimed) entries
    → All (IsClaim m (insert host name claimed)) entries
IsClaim-insert m claimed host name [] free all = tt
IsClaim-insert m claimed host name (e ∷ entries) free all = (
  (lookup-insert host e.1.0 name claimed ∙ rw (eq-sym e.1.0 host free.0) all.0.0, all.0.1, all.0.2),
  IsClaim-insert m claimed host name entries free.1 all.1,
)

module _ (url_parse : Text → Option Url) (m : RouteManager) where
  claim_built-AreClaimsOf :
      (r : AppRoute) (built : Problem ⊎ Handler) (c : Claims)
      → is_reserved m r.host ≡ false
      → to_lower r.host ≡ r.host
      → lookup r.host c.claimed ≡ none
      → AreClaimsOf m c
      → AreClaimsOf m (claim_built url_parse r built c)
  claim_built-AreClaimsOf r (inl p) c unreserved low new h = h
  claim_built-AreClaimsOf r (inr handler) c unreserved low new h =
      let free = unclaimed-IsFree m c.claimed r.host c.desired new h.0 in
      (
        All-insert _ r.name (r.host, handler) c.desired
            (
              lookup-insert r.host r.host r.name c.claimed ∙ rw (text_eq_refl r.host) refl,
              unreserved,
              low,
            )
            (IsClaim-insert m c.claimed r.host r.name c.desired free h.0),
        HasDistinctHosts-insert r.name (r.host, handler) c.desired free h.1,
      )

  claim_free-AreClaimsOf :
      (r : AppRoute) (owner : Option Text) (c : Claims)
      → is_reserved m r.host ≡ false
      → to_lower r.host ≡ r.host
      → lookup r.host c.claimed ≡ owner
      → AreClaimsOf m c
      → AreClaimsOf m (claim_free url_parse m.has_gate r owner c)
  claim_free-AreClaimsOf r (some owner) c unreserved low e h = h
  claim_free-AreClaimsOf r none c unreserved low e h =
      claim_built-AreClaimsOf r (handler_for url_parse m.has_gate r) c unreserved low e h

  claim-AreClaimsOf :
      (r : AppRoute) (c : Claims)
      → to_lower r.host ≡ r.host
      → AreClaimsOf m c
      → AreClaimsOf m (claim url_parse m r c)
  claim-AreClaimsOf r c low h = elim (Bool-cases (is_reserved m r.host)) [
    | inl t ↦ rw t h
    | inr t ↦ rw t (claim_free-AreClaimsOf r (lookup r.host c.claimed) c t low refl h)
  ]

  claim_all-AreClaimsOf :
      (routes : List AppRoute) (c : Claims)
      → All (λ r. to_lower r.host ≡ r.host) routes
      → AreClaimsOf m c
      → AreClaimsOf m (claim_all url_parse m routes c)
  unfolding claim_all
  claim_all-AreClaimsOf [] c low h = h
  claim_all-AreClaimsOf (r ∷ routes) c low h =
      claim_all-AreClaimsOf routes (claim url_parse m r c) low.1 (claim-AreClaimsOf r c low.0 h)

  pub claims_of-AreClaimsOf :
      (l : Loaded)
      → All (λ r. to_lower r.host ≡ r.host) l.routes
      → AreClaimsOf m (claims_of url_parse m l)
  claims_of-AreClaimsOf l low = claim_all-AreClaimsOf l.routes _ low (tt, tt)

-- The hosts of loaded routes are in lower case.
abbrev IsLower : Loaded → Type 0
IsLower l = All (λ r. to_lower r.host ≡ r.host) l.routes

resolve_settings-IsLower :
    (base_host name : Text) (s : AppSettings) (l : Loaded)
    → IsLower l
    → IsLower (resolve_settings base_host name s l)
resolve_settings-IsLower base_host name s l h = elim (Bool-cases (is_empty s.subdomain)) [
  | inl t ↦ rw t h
  | inr t ↦ elim (Bool-cases (is_empty s.backend)) [
    | inl t' ↦ rw (t, t') h
    | inr t' ↦ rw (t, t') (to_lower_idem _, h)
  ]
]

resolve_row-IsLower :
    (base_host name : Text) (json : SettingsJson) (l : Loaded)
    → IsLower l
    → IsLower (resolve_row base_host name json l)
resolve_row-IsLower base_host name blank l h =
    resolve_settings-IsLower base_host name no_settings l h
resolve_row-IsLower base_host name broken l h = h
resolve_row-IsLower base_host name (decoded s) l h = resolve_settings-IsLower base_host name s l h

pub resolve_rows-IsLower :
    (base_host : Text) (rows : List AppRow)
    → All (λ r. to_lower r.host ≡ r.host) (resolve_rows base_host rows).routes
unfolding resolve_rows
resolve_rows-IsLower base_host [] = tt
resolve_rows-IsLower base_host (a ∷ rows) =
    resolve_row-IsLower base_host a.name a.settings_json (resolve_rows base_host rows)
      (resolve_rows-IsLower base_host rows)
