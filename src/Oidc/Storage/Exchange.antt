-- ===== src/Oidc/Storage/Exchange.antt =====
-- CreateAccessAndRefreshTokens of internal/auth/oidc/storage.go for a refresh token: the old token is
-- spent, and the new one carries on for it.
use nass.Common.{
  inr, inl, Bool-cases, ℕ, ◌+◌, ◌≡◌, ◌≢◌, ◌≤◌, refl, ap, ◌∙◌, false, not, ◌&&◌, none, some, [], ◌∷◌,
  ◌++◌, Text, ◌==◌, text_eq_test, nat_eq_test, find_if, is_empty, parse_int, Int64, arith,
  text_eq_iff, text_eq_refl,
}
use nass.Db.{Db, AccessTokenRow, RefreshTokenRow}
use nass.Db.Rows.{
  NoRow, delete_where, find_if-append_none, find_if-append, delete_where-NoRow, find_if-spared,
}
use nass.Db.Monad.{World, ok, err, sql, invalid_refresh_token, ◌>>=◌}
use nass.Db.Ensures.{
  Holds, Holds-ok, Ensures, ensures-pure, ensures-to, ensures-each, ensures-bind, ensures-uuid,
}
use nass.Oidc.Tokens.{
  AccessToken, find_refresh, find_access, delete_refresh, is_of_refresh, load_refresh_token,
  access_token_ttl, refresh_token_ttl, new_access, insert_refresh, successor,
}
use nass.Oidc.Storage.{
  TokenRequest, Issued, create_access_and_refresh_tokens, rotate_pair, get_subject, audience_of,
  scopes_of, client_id_from_request,
}
use nass.Oidc.Storage.Rotation.{
  IsInserted, IsRotation, insert_access_token-ensures, rotate_refresh_token-ensures,
}

module _ (req : TokenRequest) (current : Text) where
  abbrev pub new_access_row : Int64 → Issued → AccessTokenRow
  new_access_row uid issued =
      new_access issued.access (client_id_from_request req) uid issued.refresh (audience_of req)
        (scopes_of req) issued.expires

  -- The exchange of `current` for `issued`.
  abbrev pub IsExchanged : ℕ → Db → Issued → Db → Type 0
  IsExchanged now before issued db =
      (t : RefreshTokenRow) × (find_refresh current before ≡ some t)
      × (now ≤ t.expires_at)
      × (uid : Int64) × (parse_int (get_subject req) ≡ some uid)
      × (issued.expires ≡ now + access_token_ttl)
      × (find_access issued.access db ≡ some (new_access_row uid issued))
      × (find_refresh issued.refresh db
          ≡ some (successor issued.refresh (scopes_of req) (now + refresh_token_ttl) t))
      × (issued.refresh ≢ current → find_refresh current db ≡ none)
      × NoRow (λ a. is_of_refresh current a.refresh_token_id && not (a.id == issued.access))
          db.oidc_access_tokens

  abbrev pub KeepsRefreshTokens : Db → Db → Type 0
  KeepsRefreshTokens before db = db.oidc_refresh_tokens ≡ before.oidc_refresh_tokens

  found_refresh :
      (new_id : Text) (t : RefreshTokenRow) (before : Db)
      → find_refresh new_id before ≡ none
      → t.id ≡ new_id
      → find_refresh new_id (insert_refresh t before) ≡ some t
  found_refresh new_id t before fresh e =
      find_if-append_none (λ t. t.id == new_id) before.oidc_refresh_tokens (t ∷ []) fresh
      ∙ rw (e, text_eq_refl new_id) refl

  spent_refresh :
      (t : RefreshTokenRow) (before : Db)
      → t.id ≢ current
      → find_refresh current (insert_refresh t (delete_refresh current before)) ≡ none
  spent_refresh t before other =
      find_if-append (λ t. t.id == current) _ (t ∷ [])
        (delete_where-NoRow _ before.oidc_refresh_tokens)
      ∙ elim (Bool-cases (t.id == current)) [
        | inl same ↦ absurd (other ((text_eq_iff t.id current).0 same))
        | inr same ↦ rw same refl
      ]

  kept_access :
      (row : AccessTokenRow) (before : Db)
      → find_access row.id before ≡ none
      → find_if
          (λ a. a.id == row.id)
          (delete_where
            (λ a. is_of_refresh current a.refresh_token_id && not (a.id == row.id))
            (before.oidc_access_tokens ++ row ∷ []))
        ≡ some row
  kept_access row before fresh =
      find_if-spared (λ a. a.id == row.id) _ (before.oidc_access_tokens ++ row ∷ [])
        (find_if-append_none _ before.oidc_access_tokens (row ∷ []) fresh
          ∙ rw (text_eq_refl row.id) refl)
        (rw (text_eq_refl row.id) (ground arith))

  module _ (new_id : Text) (n : ℕ) (before mid db : Db) (tok : AccessToken)
      (inserted : IsInserted
        (client_id_from_request req)
        new_id
        (get_subject req)
        (audience_of req)
        (scopes_of req)
        n
        before
        tok
        mid) where
    keeps_refresh : db ≡ mid → KeepsRefreshTokens before db
    keeps_refresh e = let (_, _, _, _, _, e') = inserted in ap (λ d. d.oidc_refresh_tokens) (e ∙ e')

    exchanged :
        IsRotation current new_id tok.id (scopes_of req) n mid db
        → IsExchanged n before
            (record { access = tok.id; refresh = new_id; expires = tok.expires_at })
            db
    exchanged (t, found, live, fresh, e) =
        let (uid, parsed, known, new, expiry, e') = inserted in
        (
          t,
          rw e' at found,
          live,
          uid,
          parsed,
          expiry,
          rw (e, e', expiry)
              (kept_access
                (new_access tok.id (client_id_from_request req) uid new_id (audience_of req)
                  (scopes_of req) (n + access_token_ttl))
                before new),
          rw e (
              found_refresh new_id (successor new_id (scopes_of req) (n + refresh_token_ttl) t)
                (delete_refresh current mid) fresh refl),
          λ other. rw e (
              spent_refresh (successor new_id (scopes_of req) (n + refresh_token_ttl) t) mid other),
          rw e (delete_where-NoRow _ (mid.oidc_access_tokens)),
        )

  rotate_pair-ensures :
      (n : ℕ) (before : Db)
      → Ensures n
          (λ db. db ≡ before)
          (rotate_pair req current)
          (IsExchanged n before)
          (KeepsRefreshTokens before)
  rotate_pair-ensures n before = ensures-uuid _ λ new_id.
      ensures-bind _ _ _
        (ensures-to _ _ _ (λ a db q. q) (λ db q. ap (λ d. d.oidc_refresh_tokens) q)
          (insert_access_token-ensures (client_id_from_request req) new_id (get_subject req)
            (audience_of req) (scopes_of req) n before))
        λ tok. ensures-each _ λ mid inserted.
          ensures-bind _ _ _
            (ensures-to _ _ _ (λ _ db q. q)
              (λ db q. keeps_refresh new_id n before mid db tok inserted q)
              (rotate_refresh_token-ensures current new_id tok.id (scopes_of req) n mid))
            λ _. ensures-pure _ (λ db q. exchanged new_id n before mid db tok inserted q)

exchange-ensures :
    (req : TokenRequest) (current : Text) (n : ℕ) (before : Db)
    → is_empty current ≡ false
    → Ensures n
        (λ db. db ≡ before)
        (create_access_and_refresh_tokens req current)
        (IsExchanged req current n before)
        (KeepsRefreshTokens req current before)
unfolding create_access_and_refresh_tokens
exchange-ensures req [] n before e = cc
exchange-ensures req (c ∷ s) n before e = rotate_pair-ensures req (c ∷ s) n before

-- The refresh-token grant either reports an error, and then no refresh token is spent or made, or it
-- reports none. Then the presented token was there and had not expired; the new one, for the same
-- user, client and audience, with the scopes asked for and a new lifetime, is in its place; the
-- presented one is gone, where the new id differs from it; the new access token is there, for the
-- subject and client of the request; and no other access token of the old refresh token is left.
pub exchange-Holds :
    (req : TokenRequest) (current : Text) (w : World)
    → is_empty current ≡ false
    → Holds w.now
        (IsExchanged req current w.now w.db)
        (KeepsRefreshTokens req current w.db)
        (create_access_and_refresh_tokens req current w)
exchange-Holds req current w e = (exchange-ensures req current w.now w.db e).at w refl refl

load_none :
    (id : Text) (w : World)
    → find_refresh id w.db ≡ none
    → ((n : ℕ) → w.fault n ≡ false)
    → (load_refresh_token id w).0 ≡ err invalid_refresh_token
unfolding load_refresh_token sql ◌>>=◌
load_none id w gone h = rw (h w.calls, gone) refl

-- A refresh token that the grant has exchanged is refused from then on: where no statement fails,
-- loading it reports an invalid token, as long as the rows are as the grant left them and the
-- token that took its place has another id.
pub exchange-once :
    (req : TokenRequest) (current : Text) (w w' later : World) (issued : Issued)
    → is_empty current ≡ false
    → create_access_and_refresh_tokens req current w ≡ (ok issued, w')
    → issued.refresh ≢ current
    → later.db ≡ w'.db
    → ((n : ℕ) → later.fault n ≡ false)
    → (load_refresh_token current later).0 ≡ err invalid_refresh_token
exchange-once req current w w' later issued e done other same h =
    let (_, _, _, _, _, _, _, _, spent, _) =
      Holds-ok _ _ _ _ issued w' (exchange-Holds req current w e) done in
    load_none current later (rw same (spent other)) h
