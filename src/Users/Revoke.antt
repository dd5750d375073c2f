-- ===== src/Users/Revoke.antt =====
-- What a change of credentials does to the sessions and tokens of a user.
use nass.Common.{ℕ, ◌≡◌, not, ◌==◌, nat_eq_test, keep_if}
use nass.Db.{Db}
use nass.Db.Rows.{NoRow, delete_where-NoRow, keep_if-delete_where}
use nass.Db.Ensures.{Ensures, Anything, ensures-exec, ensures-exec_last}
use nass.Users.{
  revoke_sessions, delete_sessions_of, delete_access_tokens_of, delete_refresh_tokens_of,
}

-- The user holds no portal session, no access token and no refresh token.
abbrev pub IsSignedOut : ℕ → Db → Type 0
IsSignedOut id db =
    NoRow (λ s. s.user_id == id) db.portal_sessions
    × NoRow (λ t. t.user_id == id) db.oidc_access_tokens
    × NoRow (λ t. t.user_id == id) db.oidc_refresh_tokens

-- The sessions and tokens of everybody else are as they were.
abbrev pub SparesOthers : ℕ → Db → Db → Type 0
SparesOthers id before db =
    (keep_if (λ s. not (s.user_id == id)) db.portal_sessions
      ≡ keep_if (λ s. not (s.user_id == id)) before.portal_sessions)
    × (keep_if (λ t. not (t.user_id == id)) db.oidc_access_tokens
        ≡ keep_if (λ t. not (t.user_id == id)) before.oidc_access_tokens)
    × (keep_if (λ t. not (t.user_id == id)) db.oidc_refresh_tokens
        ≡ keep_if (λ t. not (t.user_id == id)) before.oidc_refresh_tokens)

abbrev pub revoked : ℕ → Db → Db
revoked id db = delete_refresh_tokens_of id (delete_access_tokens_of id (delete_sessions_of id db))

pub revoke_sessions-ensures :
    (n id : ℕ) (before : Db)
    → Ensures n (λ db. db ≡ before) (revoke_sessions id) (λ _ db. db ≡ revoked id before) Anything
unfolding revoke_sessions
revoke_sessions-ensures n id before =
    ensures-exec _ _ (λ db. db ≡ delete_sessions_of id before) (λ db e. rw e) (λ db e. tt)
      (ensures-exec _ _ (λ db. db ≡ delete_access_tokens_of id (delete_sessions_of id before))
        (λ db e. rw e) (λ db e. tt) (ensures-exec_last _ (λ db e. rw e) (λ db e. tt)))

pub revoked-IsSignedOut : (id : ℕ) (before db : Db) → db ≡ revoked id before → IsSignedOut id db
revoked-IsSignedOut id before db e = rw e (
  delete_where-NoRow _ before.portal_sessions,
  delete_where-NoRow _ before.oidc_access_tokens,
  delete_where-NoRow _ before.oidc_refresh_tokens,
)

pub revoked-SparesOthers : (id : ℕ) (before : Db) → SparesOthers id before (revoked id before)
revoked-SparesOthers id before = (
  keep_if-delete_where (λ s. s.user_id == id) before.portal_sessions,
  keep_if-delete_where (λ t. t.user_id == id) before.oidc_access_tokens,
  keep_if-delete_where (λ t. t.user_id == id) before.oidc_refresh_tokens,
)
