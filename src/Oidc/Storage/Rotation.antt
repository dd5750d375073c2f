-- ===== src/Oidc/Storage/Rotation.antt =====
-- The refresh-token grant of internal/auth/oidc/storage.go: a refresh token is used once.
use nass.Common.{
  ℕ, ◌+◌, ◌≡◌, ◌≤◌, refl, ap, Bool, true, false, not, Option, none, some, List, Text, text_eq_test,
  nat_eq_test, parse_int, Int64, nonnegative, arith,
}
use nass.Db.{Db, AccessTokenRow, RefreshTokenRow}
use nass.Db.Rows.{find_if-any_of}
use nass.Db.Monad.{commits, violation, foreign_key_error}
use nass.Db.Ensures.{
  Ensures, Anything, Ended, ensures-pure, ensures-fail, ensures-given, ensures-branch,
  ensures-tx_known, ensures-query, ensures-bind, ensures-now, ensures-exec, ensures-uuid,
  ensures-exec_checked, violation-none,
}
use nass.Oidc.Tokens.{
  AccessToken, insert_access_token, rotate_refresh_token, find_refresh, find_access, delete_refresh,
  access_token_ttl, refresh_token_ttl, has_subject, insert_access, new_access, access_violation,
  refresh_violation, insert_access_for, rotate_row, delete_older_access, insert_refresh, successor,
}

not-false : (b : Bool) → not b ≡ false → b ≡ true
not-false true h = refl
not-false false h = cc

refresh_inserted :
    (id : Text) (uid : Int64) (row : RefreshTokenRow) (before db : Db)
    → db ≡ before
    → refresh_violation id uid db ≡ none
    → (find_refresh id before ≡ none) × (insert_refresh row db ≡ insert_refresh row before)
refresh_inserted id uid row before db e t = (
  find_if-any_of _ before.oidc_refresh_tokens (violation-none _ _ _ (rw e at t)).0,
  ap (insert_refresh row) e,
)

module _ (client_id refresh_id subject : Text) (audience scopes : List Text) where
  -- `db` has one access token more than `before`, `tok`, for a user that exists.
  abbrev pub IsInserted : ℕ → Db → AccessToken → Db → Type 0
  IsInserted now before tok db =
      (uid : Int64) × (parse_int subject ≡ some uid)
      × (has_subject uid before ≡ true)
      × (find_access tok.id before ≡ none)
      × (tok.expires_at ≡ now + access_token_ttl)
      × (db
          ≡ insert_access
              (new_access tok.id client_id uid refresh_id audience scopes (now + access_token_ttl))
              before)

  access_inserted :
      (id : Text) (uid : Int64) (row : AccessTokenRow) (before db : Db)
      → db ≡ before
      → access_violation id uid db ≡ none
      → (has_subject uid before ≡ true)
        × (find_access id before ≡ none)
        × (insert_access row db ≡ insert_access row before)
  access_inserted id uid row before db e t =
      let known : violation (not (has_subject uid before)) foreign_key_error none ≡ none =
        (violation-none _ _ _ (rw e at t)).1 in
      (
        not-false _ (violation-none _ _ _ known).0,
        find_if-any_of _ before.oidc_access_tokens (violation-none _ _ _ (rw e at t)).0,
        ap (insert_access row) e,
      )

  insert_access_for-ensures :
      (n : ℕ) (before : Db) (parsed : Option Int64)
      → parse_int subject ≡ parsed
      → Ensures n
          (λ db. db ≡ before)
          (insert_access_for client_id refresh_id subject audience scopes parsed)
          (IsInserted n before)
          (λ db. db ≡ before)
  insert_access_for-ensures n before none e = ensures-fail _ (λ db p. p)
  insert_access_for-ensures n before (some uid) e = ensures-uuid _ λ id. ensures-now _ (
      ensures-bind
        (λ _ db.
          (has_subject uid before ≡ true)
          × (find_access id before ≡ none)
          × (db
              ≡ insert_access
                  (new_access id client_id uid refresh_id audience scopes (n + access_token_ttl))
                  before))
        _ _
        (ensures-exec_checked _ _ (λ db p t. access_inserted id uid _ before db p t) (λ db p. p))
        λ _. ensures-pure _ (λ db (known, fresh, q). (uid, e, known, fresh, refl, q)))

  pub insert_access_token-ensures :
      (n : ℕ) (before : Db)
      → Ensures n
          (λ db. db ≡ before)
          (insert_access_token client_id refresh_id subject audience scopes)
          (IsInserted n before)
          (λ db. db ≡ before)
  unfolding insert_access_token
  insert_access_token-ensures n before = insert_access_for-ensures n before (parse_int subject) refl

module _ (current new_id access_id : Text) (scopes : List Text) where
  abbrev pub rotated : ℕ → RefreshTokenRow → Db → Db
  rotated now t db = delete_older_access current access_id (
      insert_refresh (successor new_id scopes (now + refresh_token_ttl) t)
        (delete_refresh current db))

  abbrev pub IsRotation : ℕ → Db → Db → Type 0
  IsRotation now before db =
      (t : RefreshTokenRow) × (find_refresh current before ≡ some t)
      × (now ≤ t.expires_at)
      × (find_refresh new_id (delete_refresh current before) ≡ none)
      × (db ≡ rotated now t before)

  rotate_row-ensures :
      (n : ℕ) (before : Db) (row : Option RefreshTokenRow)
      → find_refresh current before ≡ row
      → Ensures n
          (λ db. db ≡ before)
          (rotate_row current new_id access_id scopes row)
          (Ended (λ _ db. IsRotation n before db) before)
          Anything
  rotate_row-ensures n before none e = ensures-fail _ (λ db p. tt)
  rotate_row-ensures n before (some t) e = ensures-now _ (
      ensures-branch _ _ _ (λ late. ensures-fail _ (λ db p. tt))
        λ late.
          ensures-exec _ _ (λ db. db ≡ delete_refresh current before)
            (λ db p. ap (delete_refresh current) p) (λ db p. tt)
            (ensures-bind
              (λ _ db.
                (find_refresh new_id (delete_refresh current before) ≡ none)
                × (db
                    ≡ insert_refresh (successor new_id scopes (n + refresh_token_ttl) t)
                        (delete_refresh current before)))
              _ _
              (ensures-exec_checked _ _
                (λ db p v.
                  refresh_inserted new_id (nonnegative t.user_id) _ (delete_refresh current before)
                    db p v)
                (λ db p. tt))
              λ _.
                ensures-given _ (λ db p. p.0)
                  λ fresh.
                    ensures-exec _ _ (λ db. db ≡ rotated n t before)
                      (λ db p. ap (delete_older_access current access_id) p.1) (λ db p. tt)
                      (ensures-pure (commits tt) (λ db p. (t, e, ground (arith, late), fresh, p)))))

  pub rotate_refresh_token-ensures :
      (n : ℕ) (before : Db)
      → Ensures n
          (λ db. db ≡ before)
          (rotate_refresh_token current new_id access_id scopes)
          (λ _ db. IsRotation n before db)
          (λ db. db ≡ before)
  unfolding rotate_refresh_token
  rotate_refresh_token-ensures n before =
      ensures-tx_known _ refl (ensures-query _ _ tt λ row e. rotate_row-ensures n before row e)
