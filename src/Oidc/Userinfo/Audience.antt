-- ===== src/Oidc/Userinfo/Audience.antt =====
-- Introspection and userinfo in internal/auth/oidc/storage.go: who is told what about a token.
use nass.Common.{
  ℕ, ◌≡◌, ◌≤◌, true, false, some, List, [], Text, text, ◌==◌, text_eq_test, nat_eq_test, any_of,
  ◌⊎◌, format_int,
}
use nass.Db.{UserRow, Db, AccessTokenRow}
use nass.Db.Ensures.{Ensures}
use nass.Users.{user_of, find_user}
use nass.Oidc.Tokens.{AccessToken, find_access, access_of}
use nass.Oidc.Userinfo.{UserInfo, Introspection, groups_of}

-- The subject is unset, or the one that is to be set.
abbrev IsSubject : Text → UserInfo → Type 0
IsSubject subject info = (info.subject ≡ []) ⊎ (info.subject ≡ subject)

-- What is said about the account `user` to a bearer of a token with these scopes.
abbrev pub IsAbout : ℕ → UserRow → List Text → UserInfo → Type 0
IsAbout id user scopes info =
    (info.subject ≡ format_int id)
    × (info.groups ≡ groups_of (user_of user))
    × (any_of (λ s. s == text "email") scopes ≡ false → info.email ≡ [])

module _ (token_id client_id : Text) where
  -- The token is there, has not expired and was issued for the client, and its account exists.
  abbrev pub IsIntrospected : ℕ → Db → Introspection → Type 0
  IsIntrospected now before intro =
      (t : AccessTokenRow) × (find_access token_id before ≡ some t)
      × (now ≤ t.expires_at)
      × (any_of (λ a. a == client_id) t.audience ≡ true)
      × (intro.expiration ≡ t.expires_at)
      × (intro.client_id ≡ t.client_id)
      × (intro.scope ≡ t.scopes)
      × (user : UserRow) × (find_user t.user_id before ≡ some user)
      × IsAbout t.user_id user t.scopes intro.user_info

  abbrev IsLoaded : Db → AccessToken → Type 0
  IsLoaded before tok =
      (t : AccessTokenRow) × (find_access token_id before ≡ some t) × (tok ≡ access_of t)
