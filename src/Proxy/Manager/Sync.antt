-- ===== src/Proxy/Manager/Sync.antt =====
-- Sync of internal/proxy/manager.go: the live routes after it, host by host.
use nass.Common.{
  ℕ, ◌≡◌, refl, sym, ap, ◌∙◌, Bool, true, false, not, ◌&&◌, inl, inr, Option, none, some, List, [],
  ◌∷◌, Text, ◌==◌, Bool-cases, text_eq_test, text_eq_iff, any_of, if◌then◌else◌, Dict, lookup,
  lookup-insert, lookup-delete, to_lower, is_some, or_else, All,
}
use nass.Db.{Db}
use nass.Db.Monad.{World, ok}
use nass.Db.Ensures.{Holds-ok, Ensures, ensures-query, ensures-pure}
use nass.Proxy.{Server, Handler, Url, add_route, remove_route}
use nass.Proxy.Manager.{
  Problem, RouteManager, Claims, is_reserved, claims_of, resolve_rows, enabled_apps, load_enabled,
  install, add_all, drop_unclaimed, values, hosts_of, sync,
}
use nass.Proxy.Manager.Claiming.{
  IsClaim, IsFree, HasDistinctHosts, AreClaimsOf, claims_of-AreClaimsOf, resolve_rows-IsLower,
}

true-false : true ≡ false → ⊥
true-false e = cc

-- The handler that the entries give a host.
abbrev pub handler_of : Text → Dict (Text × Handler) → Option Handler
handler_of host [] = none
handler_of host (e ∷ entries) = if e.1.0 == host then some e.1.1 else handler_of host entries

handler_of-IsFree :
    (host : Text) (entries : Dict (Text × Handler))
    → IsFree host entries
    → handler_of host entries ≡ none
handler_of-IsFree host [] free = refl
handler_of-IsFree host (e ∷ entries) free = rw free.0 (handler_of-IsFree host entries free.1)

lookup-add_all :
    (host : Text) (m : RouteManager) (claimed : Dict Text) (entries : Dict (Text × Handler))
    (s : Server)
    → All (IsClaim m claimed) entries
    → HasDistinctHosts entries
    → lookup host (add_all entries s).routes
      ≡ or_else (handler_of host entries) (lookup host s.routes)
unfolding add_all add_route
lookup-add_all host m claimed [] s all d = refl
lookup-add_all host m claimed (e ∷ entries) s all d =
    lookup-add_all host m claimed entries (add_route e.1.0 e.1.1 s) all.1 d.1
    ∙ rw (all.0.2, lookup-insert e.1.0 host e.1.1 s.routes)
        (elim (Bool-cases (e.1.0 == host)) [
          | inl t ↦
              rw (t, handler_of-IsFree host entries (rw ((text_eq_iff e.1.0 host).0 t) at d.0)) refl
          | inr t ↦ rw t refl
        ])

abbrev drop_one : Dict Text → Text → Server → Server
drop_one claimed h s = if is_some (lookup h claimed) then s else (remove_route h s).0

lookup-drop_one :
    (host : Text) (claimed : Dict Text) (h : Text) (s : Server)
    → to_lower h ≡ h
    → lookup host (drop_one claimed h s).routes
      ≡ (if (h == host) && not (is_some (lookup host claimed)) then none else lookup host s.routes)
unfolding remove_route
lookup-drop_one host claimed h s low = elim (Bool-cases (h == host)) [
  | inl t ↦ elim (Bool-cases (is_some (lookup h claimed))) [
    | inl c ↦ rw (t, c, ← (text_eq_iff h host).0 t, c) refl
    | inr c ↦ rw (t, c, low, lookup-delete h host s.routes, t, ← (text_eq_iff h host).0 t, c) refl
  ]
  | inr t ↦ elim (Bool-cases (is_some (lookup h claimed))) [
    | inl c ↦ rw (t, c) refl
    | inr c ↦ rw (t, c, low, lookup-delete h host s.routes, t) refl
  ]
]

drop_twice :
    (a b c : Bool) (o : Option Handler)
    → (if a && c then none else (if b && c then none else o))
      ≡ (if (if b then true else a) && c then none else o)
drop_twice true true true o = refl
drop_twice true true false o = refl
drop_twice true false true o = refl
drop_twice true false false o = refl
drop_twice false true true o = refl
drop_twice false true false o = refl
drop_twice false false true o = refl
drop_twice false false false o = refl

lookup-drop_unclaimed :
    (host : Text) (claimed : Dict Text) (old : List Text) (s : Server)
    → All (λ h. to_lower h ≡ h) old
    → lookup host (drop_unclaimed claimed old s).routes ≡ (
        if any_of (λ h. h == host) old && not (is_some (lookup host claimed))
        then none
        else lookup host s.routes)
unfolding drop_unclaimed
lookup-drop_unclaimed host claimed [] s low = refl
lookup-drop_unclaimed host claimed (h ∷ old) s low =
    lookup-drop_unclaimed host claimed old (drop_one claimed h s) low.1
    ∙ rw (lookup-drop_one host claimed h s low.0) (
        drop_twice (any_of (λ g. g == host) old) (h == host) (not (is_some (lookup host claimed)))
          (lookup host s.routes))

-- What a manager keeps from one Sync to the next: its hosts are in lower case and not reserved.
abbrev pub IsSound : RouteManager → Type 0
IsSound m = All (λ h. (to_lower h ≡ h) × (is_reserved m h ≡ false)) (values m.app_hosts)

module _ (url_parse : Text → Option Url) where
  -- The claims that Sync makes on the apps of `db`.
  abbrev pub claims_on : RouteManager → Db → Claims
  claims_on m db = claims_of url_parse m (resolve_rows m.base_host (enabled_apps db))

  -- The route of a host: that of the app that claims it; else none, where an app had it before; else
  -- what it was.
  abbrev pub route_after : RouteManager → Db → Text → Option Handler
  route_after m db host =
      let c = claims_on m db in
      or_else (handler_of host c.desired) (
        if any_of (λ h. h == host) (values m.app_hosts) && not (is_some (lookup host c.claimed))
        then none
        else lookup host m.server.routes)

  All-lower :
      (m : RouteManager) (hs : List Text)
      → All (λ h. (to_lower h ≡ h) × (is_reserved m h ≡ false)) hs
      → All (λ h. to_lower h ≡ h) hs
  All-lower m [] all = tt
  All-lower m (h ∷ hs) all = (all.0.0, All-lower m hs all.1)

  claims_on-AreClaimsOf : (m : RouteManager) (db : Db) → AreClaimsOf m (claims_on m db)
  claims_on-AreClaimsOf m db =
      claims_of-AreClaimsOf url_parse m (resolve_rows m.base_host (enabled_apps db))
        (resolve_rows-IsLower m.base_host (enabled_apps db))

  lookup-install :
      (m : RouteManager) (db : Db) (host : Text)
      → IsSound m
      → lookup host (install (claims_on m db) m).server.routes ≡ route_after m db host
  unfolding install
  lookup-install m db host sound =
      let (all, distinct) = claims_on-AreClaimsOf m db in
      lookup-add_all host m (claims_on m db).claimed (claims_on m db).desired _ all distinct
      ∙ ap (or_else (handler_of host (claims_on m db).desired)) (
          lookup-drop_unclaimed host (claims_on m db).claimed (values m.app_hosts) m.server
            (All-lower m _ sound))

  sync-ensures :
      (n : ℕ) (m : RouteManager) (before : Db)
      → Ensures n
          (λ db. db ≡ before)
          (sync url_parse m)
          (λ r db.
            (r ≡ (install (claims_on m before) m, (claims_on m before).problems)) × (db ≡ before))
          (λ db. db ≡ before)
  unfolding sync load_enabled
  sync-ensures n m before = ensures-query _ _ refl λ l e. ensures-pure _ (λ db p. (rw e refl, p))

  sync-result :
      (m : RouteManager) (w w' : World) (m' : RouteManager) (problems : List Problem)
      → sync url_parse m w ≡ (ok (m', problems), w')
      → m' ≡ install (claims_on m w.db) m
  sync-result m w w' m' problems done =
      ap (λ r. r.0)
        (Holds-ok _ _ _ _ (m', problems) w' ((sync-ensures w.now m w.db).at w refl refl) done).0

  -- After a Sync that has read the table, each host has the handler of the app that claims it; a host
  -- that no app claims any more has no route, where an app had it; and every other route is what
  -- it was.
  pub lookup-sync :
      (m m' : RouteManager) (problems : List Problem) (w w' : World) (host : Text)
      → IsSound m
      → sync url_parse m w ≡ (ok (m', problems), w')
      → lookup host m'.server.routes ≡ route_after m w.db host
  lookup-sync m m' problems w w' host sound done =
      ap (λ x. lookup host x.server.routes) (sync-result m w w' m' problems done)
      ∙ lookup-install m w.db host sound

  reserved-IsFree :
      (m : RouteManager) (claimed : Dict Text) (host : Text) (entries : Dict (Text × Handler))
      → is_reserved m host ≡ true
      → All (IsClaim m claimed) entries
      → IsFree host entries
  reserved-IsFree m claimed host [] h all = tt
  reserved-IsFree m claimed host (e ∷ entries) h all = (
    elim (Bool-cases (e.1.0 == host)) [
      | inl t ↦ absurd (true-false (sym h ∙ rw ((text_eq_iff e.1.0 host).0 t) at all.0.1))
      | inr t ↦ t
    ],
    reserved-IsFree m claimed host entries h all.1,
  )

  reserved-unmanaged :
      (m : RouteManager) (host : Text) (hs : List Text)
      → is_reserved m host ≡ true
      → All (λ h. (to_lower h ≡ h) × (is_reserved m h ≡ false)) hs
      → any_of (λ h. h == host) hs ≡ false
  reserved-unmanaged m host [] r all = refl
  reserved-unmanaged m host (h ∷ hs) r all = elim (Bool-cases (h == host)) [
    | inl t ↦ absurd (true-false (sym r ∙ rw ((text_eq_iff h host).0 t) at all.0.1))
    | inr t ↦ rw t (reserved-unmanaged m host hs r all.1)
  ]

  -- The routes of nass itself are safe from the apps: whatever is in the table, no Sync changes the
  -- route of a reserved host.
  pub reserved-sync :
      (m m' : RouteManager) (problems : List Problem) (w w' : World) (host : Text)
      → IsSound m
      → is_reserved m host ≡ true
      → sync url_parse m w ≡ (ok (m', problems), w')
      → lookup host m'.server.routes ≡ lookup host m.server.routes
  reserved-sync m m' problems w w' host sound reserved done =
      let (all, _) = claims_on-AreClaimsOf m w.db in
      lookup-sync m m' problems w w' host sound done
      ∙ rw
          (
            handler_of-IsFree host (claims_on m w.db).desired (
                reserved-IsFree m (claims_on m w.db).claimed host (claims_on m w.db).desired
                  reserved all),
            reserved-unmanaged m host (values m.app_hosts) reserved sound,
          )
          refl

  hosts_of_sound :
      (m : RouteManager) (claimed : Dict Text) (entries : Dict (Text × Handler))
      → All (IsClaim m claimed) entries
      → All (λ h. (to_lower h ≡ h) × (is_reserved m h ≡ false)) (values (hosts_of entries))
  hosts_of_sound m claimed [] all = tt
  hosts_of_sound m claimed (e ∷ entries) all =
      ((all.0.2, all.0.1), hosts_of_sound m claimed entries all.1)

  -- Sync leaves the manager fit for the next Sync: its hosts are in lower case and none is reserved.
  pub sync-IsSound :
      (m m' : RouteManager) (problems : List Problem) (w w' : World)
      → sync url_parse m w ≡ (ok (m', problems), w')
      → IsSound m'
  unfolding install
  sync-IsSound m m' problems w w' done = rw (sync-result m w w' m' problems done) (
      hosts_of_sound m (claims_on m w.db).claimed (claims_on m w.db).desired
        (claims_on-AreClaimsOf m w.db).0)
