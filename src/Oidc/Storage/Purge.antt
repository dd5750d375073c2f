-- ===== src/Oidc/Storage/Purge.antt =====
-- PurgeExpired of internal/auth/oidc/storage.go: only what has expired is lost.
use nass.Common.{
  ℕ, ◌≡◌, refl, ap, ◌∙◌, Bool, not, ◌&&◌, ltb, text_eq_test, nat_eq_test, keep_if, arith,
}
use nass.Db.{Db, AuthCodeRow}
use nass.Db.Rows.{NoRow, delete_where-NoRow, keep_if-spared, keep_if-delete_where}
use nass.Db.Monad.{World}
use nass.Db.Ensures.{Holds, Ensures, ensures-exec_last, ensures-exec}
use nass.Oidc.Storage.{
  purge_expired, purge_requests, purge_codes, purge_access, purge_refresh, has_dead_request,
}

module _ (cutoff : ℕ) where
  abbrev pub is_live_code : Db → AuthCodeRow → Bool
  is_live_code before c = not (has_dead_request cutoff before c) && not (ltb c.expires_at cutoff)

  -- What expires at the cutoff or later is as it was: requests, tokens, and the codes of such requests.
  abbrev pub SparesLive : Db → Db → Type 0
  SparesLive before db =
      (keep_if (λ r. not (ltb r.expires_at cutoff)) db.oidc_auth_requests
        ≡ keep_if (λ r. not (ltb r.expires_at cutoff)) before.oidc_auth_requests)
      × (keep_if (is_live_code before) db.oidc_auth_codes
          ≡ keep_if (is_live_code before) before.oidc_auth_codes)
      × (keep_if (λ t. not (ltb t.expires_at cutoff)) db.oidc_access_tokens
          ≡ keep_if (λ t. not (ltb t.expires_at cutoff)) before.oidc_access_tokens)
      × (keep_if (λ t. not (ltb t.expires_at cutoff)) db.oidc_refresh_tokens
          ≡ keep_if (λ t. not (ltb t.expires_at cutoff)) before.oidc_refresh_tokens)

  -- Nothing is left that expired before the cutoff.
  abbrev pub IsPurged : Db → Type 0
  IsPurged db =
      NoRow (λ r. ltb r.expires_at cutoff) db.oidc_auth_requests
      × NoRow (λ c. ltb c.expires_at cutoff) db.oidc_auth_codes
      × NoRow (λ t. ltb t.expires_at cutoff) db.oidc_access_tokens
      × NoRow (λ t. ltb t.expires_at cutoff) db.oidc_refresh_tokens

  codes_spared :
      (before : Db)
      → keep_if (is_live_code before) (purge_requests cutoff before).oidc_auth_codes
        ≡ keep_if (is_live_code before) before.oidc_auth_codes
  codes_spared before =
      keep_if-spared (is_live_code before) (has_dead_request cutoff before) before.oidc_auth_codes
        (λ c h. rw h refl)

  codes_spared_twice :
      (before : Db)
      → keep_if
          (is_live_code before)
          (purge_codes cutoff (purge_requests cutoff before)).oidc_auth_codes
        ≡ keep_if (is_live_code before) before.oidc_auth_codes
  codes_spared_twice before =
      keep_if-spared (is_live_code before) (λ c. ltb c.expires_at cutoff)
        (purge_requests cutoff before).oidc_auth_codes (λ c h. rw h (ground arith))
      ∙ codes_spared before

  spares_start : (before db : Db) → db ≡ before → SparesLive before db
  spares_start before db e = rw e (refl, refl, refl, refl)

  spares_requests : (before db : Db) → db ≡ purge_requests cutoff before → SparesLive before db
  spares_requests before db e =
      rw e (keep_if-delete_where _ before.oidc_auth_requests, codes_spared before, refl, refl)

  spares_codes :
      (before db : Db)
      → db ≡ purge_codes cutoff (purge_requests cutoff before)
      → SparesLive before db
  spares_codes before db e =
      rw e (keep_if-delete_where _ before.oidc_auth_requests, codes_spared_twice before, refl, refl)

  spares_access :
      (before db : Db)
      → db ≡ purge_access cutoff (purge_codes cutoff (purge_requests cutoff before))
      → SparesLive before db
  spares_access before db e = rw e (
    keep_if-delete_where _ before.oidc_auth_requests,
    codes_spared_twice before,
    keep_if-delete_where _ before.oidc_access_tokens,
    refl,
  )

  abbrev purged : Db → Db
  purged db =
      purge_refresh cutoff (purge_access cutoff (purge_codes cutoff (purge_requests cutoff db)))

  spares_all : (before db : Db) → db ≡ purged before → SparesLive before db
  spares_all before db e = rw e (
    keep_if-delete_where _ before.oidc_auth_requests,
    codes_spared_twice before,
    keep_if-delete_where _ before.oidc_access_tokens,
    keep_if-delete_where _ before.oidc_refresh_tokens,
  )

  purged-IsPurged : (before db : Db) → db ≡ purged before → IsPurged db
  purged-IsPurged before db e = rw e (
    delete_where-NoRow _ before.oidc_auth_requests,
    delete_where-NoRow _ (purge_requests cutoff before).oidc_auth_codes,
    delete_where-NoRow _ before.oidc_access_tokens,
    delete_where-NoRow _ before.oidc_refresh_tokens,
  )

  purge_expired-ensures :
      (n : ℕ) (before : Db)
      → Ensures n
          (λ db. db ≡ before)
          (purge_expired cutoff)
          (λ _ db. IsPurged db × SparesLive before db)
          (SparesLive before)
  unfolding purge_expired
  purge_expired-ensures n before =
      ensures-exec _ _ (λ db. db ≡ purge_requests cutoff before)
        (λ db p. ap (purge_requests cutoff) p) (spares_start before)
        (ensures-exec _ _ (λ db. db ≡ purge_codes cutoff (purge_requests cutoff before))
          (λ db p. ap (purge_codes cutoff) p) (spares_requests before)
          (ensures-exec _ _
            (λ db. db ≡ purge_access cutoff (purge_codes cutoff (purge_requests cutoff before)))
            (λ db p. ap (purge_access cutoff) p) (spares_codes before)
            (ensures-exec_last _
              (λ db p. (
                purged-IsPurged before _ (ap (purge_refresh cutoff) p),
                spares_all before _ (ap (purge_refresh cutoff) p),
              ))
              (spares_access before))))

  -- PurgeExpired, whether it ends with an error or not, deletes no request and no token that expires
  -- at the cutoff or later, and no such code unless its request had expired. Where it reports no
  -- error, no request, code or token is left that expired before the cutoff.
  pub purge_expired-Holds :
      (w : World)
      → Holds w.now
          (λ _ db. IsPurged db × SparesLive w.db db)
          (SparesLive w.db)
          (purge_expired cutoff w)
  purge_expired-Holds w = (purge_expired-ensures w.now w.db).at w refl refl
