-- ===== src/Oidc/Storage/Revocation.antt =====
-- RevokeToken of internal/auth/oidc/storage.go: whose tokens a client can revoke.
use nass.Common.{
  ℕ, suc, ◌≡◌, refl, ap, true, false, not, ◌&&◌, Option, none, some, Text, ◌==◌, text_eq_test,
  nat_eq_test, keep_if, ◌⊎◌, inl, inr, arith, text_eq_iff, text_eq_refl,
}
use nass.Db.{Db, AccessTokenRow, RefreshTokenRow}
use nass.Db.Rows.{NoRow, find_if-NoRow, delete_where-NoRow, keep_if-spared}
use nass.Db.Monad.{World, ok, ◌>>=◌, sql, ignore_error}
use nass.Db.Ensures.{
  Holds, Ensures, ensures-pure, ensures-fail, ensures-to, ensures-branch, ensures-query,
  ensures-ignore, ensures-exec_last, ensures-exec,
}
use nass.Oidc.Tokens.{find_refresh, find_access, delete_refresh, is_of_refresh}
use nass.Oidc.Storage.{
  revoke_token, revoke_access, revoke_refresh, delete_access, delete_access_by_refresh,
}

module _ (id client_id : Text) where
  -- Every token is as it was but the one of that id, and the access tokens of that refresh token.
  abbrev pub SparesTokens : Db → Db → Type 0
  SparesTokens before db =
      (keep_if (λ t. not (t.id == id) && not (is_of_refresh id t.refresh_token_id))
          db.oidc_access_tokens
        ≡ keep_if (λ t. not (t.id == id) && not (is_of_refresh id t.refresh_token_id))
            before.oidc_access_tokens)
      × (keep_if (λ t. not (t.id == id)) db.oidc_refresh_tokens
          ≡ keep_if (λ t. not (t.id == id)) before.oidc_refresh_tokens)

  -- The refresh token was unknown, or the client's own: then it is gone with its access tokens.
  abbrev pub IsRefreshRevoked : Db → Db → Type 0
  IsRefreshRevoked before db =
      ((find_refresh id before ≡ none) × (db ≡ before))
      ⊎ ((t : RefreshTokenRow) × (find_refresh id before ≡ some t)
          × (t.client_id ≡ client_id)
          × (find_refresh id db ≡ none)
          × NoRow (λ a. is_of_refresh id a.refresh_token_id) db.oidc_access_tokens)

  -- An access token of the client's own is gone, or the deletion has failed unnoticed.
  abbrev pub IsRevoked : Db → Db → Type 0
  IsRevoked before db =
      ((t : AccessTokenRow) × (find_access id before ≡ some t)
        × (t.client_id ≡ client_id)
        × ((find_access id db ≡ none) ⊎ (db ≡ before)))
      ⊎ ((find_access id before ≡ none) × IsRefreshRevoked before db)

  spares_refl : (before db : Db) → db ≡ before → SparesTokens before db
  spares_refl before db e = rw e (refl, refl)

  spares_access : (before db : Db) → db ≡ delete_access id before → SparesTokens before db
  spares_access before db e = rw e (
    keep_if-spared _ (λ t. t.id == id) before.oidc_access_tokens (λ t h. ground (arith, h)),
    refl,
  )

  spares_refresh : (before db : Db) → db ≡ delete_refresh id before → SparesTokens before db
  spares_refresh before db e = rw e (
    refl,
    keep_if-spared _ (λ t. t.id == id) before.oidc_refresh_tokens (λ t h. ground (arith, h)),
  )

  spares_both :
      (before db : Db)
      → db ≡ delete_access_by_refresh id (delete_refresh id before)
      → SparesTokens before db
  spares_both before db e = rw e (
    keep_if-spared _ (λ t. is_of_refresh id t.refresh_token_id) before.oidc_access_tokens
        (λ t h. ground (arith, h)),
    keep_if-spared _ (λ t. t.id == id) before.oidc_refresh_tokens (λ t h. ground (arith, h)),
  )

  revoke_refresh-ensures :
      (n : ℕ) (before : Db) (row : Option RefreshTokenRow)
      → find_refresh id before ≡ row
      → Ensures n
          (λ db. db ≡ before)
          (revoke_refresh id client_id row)
          (λ _ db. IsRefreshRevoked before db × SparesTokens before db)
          (SparesTokens before)
  revoke_refresh-ensures n before none e =
      ensures-pure _ (λ db p. (inl (e, p), spares_refl before db p))
  revoke_refresh-ensures n before (some t) e =
      ensures-branch _ _ _
        (λ own.
          ensures-exec _ _ (λ db. db ≡ delete_refresh id before) (λ db p. ap (delete_refresh id) p)
            (spares_refl before)
            (ensures-exec_last _
              (λ db p. (
                inr (
                  t,
                  e,
                  (text_eq_iff t.client_id client_id).0 own,
                  rw p (find_if-NoRow _ _ (delete_where-NoRow _ before.oidc_refresh_tokens)),
                  delete_where-NoRow _ db.oidc_access_tokens,
                ),
                spares_both before _ (ap (delete_access_by_refresh id) p),
              ))
              (spares_refresh before)))
        (λ other. ensures-fail _ (spares_refl before))

  revoke_access-ensures :
      (n : ℕ) (before : Db) (row : Option AccessTokenRow)
      → find_access id before ≡ row
      → Ensures n
          (λ db. db ≡ before)
          (revoke_access id client_id row)
          (λ _ db. IsRevoked before db × SparesTokens before db)
          (SparesTokens before)
  revoke_access-ensures n before none e =
      ensures-query _ _ (refl, refl)
        λ row e'.
          ensures-to _ _ _ (λ _ db q. (inr (e, q.0), q.1)) (λ db q. q)
            (revoke_refresh-ensures n before row e')
  revoke_access-ensures n before (some t) e =
      ensures-branch _ _ _
        (λ own.
          let mine = (text_eq_iff t.client_id client_id).0 own in
          ensures-ignore _ (
            ensures-exec_last _
              (λ db p. (
                inl (
                  t,
                  e,
                  mine,
                  inl (rw p (find_if-NoRow _ _ (delete_where-NoRow _ before.oidc_access_tokens))),
                ),
                spares_access before _ (ap (delete_access id) p),
              ))
              (λ db p. (inl (t, e, mine, inr p), spares_refl before db p))))
        (λ other. ensures-fail _ (spares_refl before))

  revoke_token-ensures :
      (n : ℕ) (before : Db) (user_id : Text)
      → Ensures n
          (λ db. db ≡ before)
          (revoke_token id user_id client_id)
          (λ _ db. IsRevoked before db × SparesTokens before db)
          (SparesTokens before)
  unfolding revoke_token
  revoke_token-ensures n before user_id =
      ensures-query _ _ (refl, refl) λ row e. revoke_access-ensures n before row e

  -- Whatever happens, RevokeToken touches no token but the one that it is given and the access tokens
  -- of that refresh token. Where it reports no error, the token was unknown, or it was issued to the
  -- client that asks; then a refresh token is gone with all its access tokens, and an access token
  -- is gone, unless its deletion failed, in which case nothing has changed.
  pub revoke_token-Holds :
      (user_id : Text) (w : World)
      → Holds w.now
          (λ _ db. IsRevoked w.db db × SparesTokens w.db db)
          (SparesTokens w.db)
          (revoke_token id user_id client_id w)
  revoke_token-Holds user_id w = (revoke_token-ensures w.now w.db user_id).at w refl refl

-- RevokeToken reports success for an access token that it has not revoked: where the query works
-- and the DELETE fails, there is no error, and the token is still there.
pub revoke_token-unnoticed :
    (id user_id : Text) (t : AccessTokenRow) (w : World)
    → find_access id w.db ≡ some t
    → w.fault w.calls ≡ false
    → w.fault (suc w.calls) ≡ true
    → ((revoke_token id user_id t.client_id w).0 ≡ ok tt)
      × (find_access id (revoke_token id user_id t.client_id w).1.db ≡ some t)
unfolding revoke_token sql ◌>>=◌ ignore_error
revoke_token-unnoticed id user_id t w found works fails =
    rw (works, found, text_eq_refl t.client_id, fails) (refl, found)
