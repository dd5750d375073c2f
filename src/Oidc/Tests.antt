-- ===== src/Oidc/Tests.antt =====
-- The OIDC storage at concrete inputs.
use nass.Common.{
  ◌+◌, ◌≡◌, ◌≢◌, refl, false, none, some, List, [], ◌∷◌, Text, text, text_eq, text_eq_iff, length,
  format_int, format_digits, parse_int, parse_digits, parse_int-format_int, nonnegative, nat_eq,
  arith,
}
use mathlib.Core.Option.{some-injective}
use nass.Db.{Db, UserRow, AccessTokenRow, RefreshTokenRow, empty_db}
use nass.Db.Monad.{
  World, ok, err, with_tx, random_token, new_uuid, ◌>>=◌, sql, map_error, ignore_error,
  invalid_refresh_token, token_not_for_client,
}
use nass.Db.Ensures.{Holds}
use nass.Users.{Bcrypt, new_row, generate_hash, get}
use nass.Oidc.Tokens.{
  refresh_request_of, access_token_ttl, insert_access_token, rotate_refresh_token,
  load_refresh_token, load_access_token, find_access,
}
use nass.Oidc.Storage.{
  TokenRequest, from_refresh, Issued, create_access_and_refresh_tokens, revoke_token, purge_expired,
}
use nass.Oidc.Storage.Exchange.{IsExchanged, KeepsRefreshTokens, exchange-Holds, exchange-once}
use nass.Oidc.Storage.Revocation.{
  IsRevoked, SparesTokens, revoke_token-Holds, revoke_token-unnoticed,
}
use nass.Oidc.Storage.Purge.{IsPurged, SparesLive, purge_expired-Holds}
use nass.Oidc.Userinfo.{set_introspection_from_token, fill_userinfo, add_claims}
use nass.Oidc.Clients.{ProvisionResult, provision, delete_client, verify_client_secret}
use nass.Oidc.Clients.Lifecycle.{verify_client_secret-provision}

abbrev plain : Bcrypt
plain = record {
  generate = λ salt password. some password;
  accepts = λ hash password. text_eq password hash;
  accepts_own =
      λ salt password hash e. (text_eq_iff password hash).1 (some-injective password hash e);
}

abbrev ada : UserRow
ada = new_row 1 10 (text "ada") (some (text "ada@example.org")) (text "analytical") 1

abbrev refresh_row : RefreshTokenRow
refresh_row = record {
  id = text "r1";
  user_id = 1;
  client_id = text "wiki";
  scopes = text "openid" ∷ [];
  audience = text "wiki" ∷ [];
  auth_time = 50;
  expires_at = 5000;
}

abbrev access_row : AccessTokenRow
access_row = record {
  id = text "a1";
  client_id = text "wiki";
  user_id = 1;
  refresh_token_id = some (text "r1");
  audience = text "wiki" ∷ [];
  scopes = text "openid" ∷ [];
  expires_at = 900;
}

abbrev store : Db
store = record empty_db {
  users = ada ∷ [];
  next_user_id = 2;
  oidc_access_tokens = access_row ∷ [];
  oidc_refresh_tokens = refresh_row ∷ [];
}

abbrev home : World
home = record {
  db = store;
  now = 100;
  calls = 0;
  fault = λ n. false;
  drawn = 0;
  fresh = λ n. n ∷ [];
  cookies = [];
}

code : Unit {0}
unfolding create_access_and_refresh_tokens insert_access_token rotate_refresh_token
    load_refresh_token load_access_token revoke_token set_introspection_from_token fill_userinfo
    add_claims purge_expired delete_client provision verify_client_secret generate_hash get sql
    with_tx ◌>>=◌ random_token new_uuid map_error ignore_error text_eq parse_int parse_digits
    format_int format_digits
code = tt

abbrev req : TokenRequest
req = from_refresh (refresh_request_of refresh_row)

abbrev issued : Issued
issued = record { access = 1 ∷ []; refresh = 0 ∷ []; expires = 100 + access_token_ttl }

abbrev after_exchange : World
after_exchange = (create_access_and_refresh_tokens req (text "r1") home).1

exchanges : create_access_and_refresh_tokens req (text "r1") home ≡ (ok issued, after_exchange)
unfolding code
exchanges = refl

-- The old access token went with the old refresh token.
one_of_each :
    (find_access (text "a1") after_exchange.db ≡ none)
    × (length after_exchange.db.oidc_access_tokens ≡ 1)
    × (length after_exchange.db.oidc_refresh_tokens ≡ 1)
unfolding code
one_of_each = (refl, refl, refl)

exchange-Holds_example :
    Holds 100
      (IsExchanged req (text "r1") 100 store)
      (KeepsRefreshTokens req (text "r1") store)
      (create_access_and_refresh_tokens req (text "r1") home)
exchange-Holds_example = exchange-Holds req (text "r1") home refl

other_id : issued.refresh ≢ text "r1"
other_id e = cc

exchange-once_example :
    (load_refresh_token (text "r1") (record home { db = after_exchange.db })).0
    ≡ err invalid_refresh_token
exchange-once_example =
    exchange-once req (text "r1") home after_exchange (record home { db = after_exchange.db })
      issued refl exchanges other_id refl (λ n. refl)

revoke_token-Holds_example :
    Holds 100
      (λ _ db.
        IsRevoked (text "r1") (text "wiki") store db
        × SparesTokens (text "r1") (text "wiki") store db)
      (SparesTokens (text "r1") (text "wiki") store)
      (revoke_token (text "r1") (text "1") (text "wiki") home)
revoke_token-Holds_example = revoke_token-Holds (text "r1") (text "wiki") (text "1") home

foreign_client :
    (revoke_token (text "a1") (text "1") (text "blog") home).0 ≡ err token_not_for_client
unfolding code
foreign_client = refl

abbrev second_call_fails : World
second_call_fails = record home { fault = λ n. nat_eq n 1 }

finds_access : find_access (text "a1") store ≡ some access_row
unfolding code
finds_access = refl

revoke_token-unnoticed_example :
    ((revoke_token (text "a1") (text "1") (text "wiki") second_call_fails).0 ≡ ok tt)
    × (find_access
          (text "a1")
          (revoke_token (text "a1") (text "1") (text "wiki") second_call_fails).1.db
        ≡ some access_row)
revoke_token-unnoticed_example =
    revoke_token-unnoticed (text "a1") (text "1") access_row second_call_fails finds_access refl
      refl

purge_expired-Holds_example :
    Holds 100
      (λ _ db. IsPurged 1000 db × SparesLive 1000 store db)
      (SparesLive 1000 store)
      (purge_expired 1000 home)
purge_expired-Holds_example = purge_expired-Holds 1000 home

other_audience :
    (set_introspection_from_token (text "a1") (text "blog") home).0 ≡ err token_not_for_client
unfolding code
other_audience = refl

abbrev uris : List Text
uris = text "https://wiki.example.org/cb" ∷ []

abbrev wiki_result : ProvisionResult
wiki_result = record { client_id = 0 ∷ []; client_secret = 1 ∷ []; app_name = text "wiki" }

abbrev with_wiki : World
with_wiki = (provision plain (text "wiki") uris home).1

provisions : provision plain (text "wiki") uris home ≡ (ok wiki_result, with_wiki)
unfolding code
provisions = refl

verify_client_secret-provision_example :
    (verify_client_secret plain (0 ∷ []) (1 ∷ []) (record home { db = with_wiki.db })).0 ≡ ok tt
verify_client_secret-provision_example =
    verify_client_secret-provision plain (text "wiki") uris home with_wiki
      (record home { db = with_wiki.db }) wiki_result provisions refl (λ n. refl)

parse_int-format_int_example : parse_int (format_int 4071) ≡ some (nonnegative 4071)
parse_int-format_int_example = parse_int-format_int 4071 (ground arith)

digits : format_int 4071 ≡ text "4071"
unfolding code
digits = refl
