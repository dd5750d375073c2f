-- ===== src/Portal/Tests.antt =====
-- The portal's login at concrete inputs.
use nass.Common.{
  has_prefix, has_suffix, ◌≡◌, refl, true, false, Option, none, some, [], ◌∷◌, Text, text, text_eq,
  text_eq_iff, to_lower,
}
use mathlib.Core.Option.{some-injective}
use nass.Db.{empty_db}
use nass.Db.Monad.{World, ok, ◌>>=◌, sql, attempt, random_token, set_cookie}
use nass.Throttle.{allow, failed, success}
use nass.Users.{Bcrypt, new_row, get, get_by_username, verify}
use nass.Sessions.{SessionStore, issue}
use nass.Portal.Navigation.{ParsedUrl, safe_next}
use nass.Portal.Navigation.Safety.{IsSafe, safe_next-IsSafe}
use nass.Portal.Login.{LoginForm, found, post_login}

abbrev plain : Bcrypt
plain = record {
  generate = λ salt password. some password;
  accepts = λ hash password. text_eq password hash;
  accepts_own =
      λ salt password hash e. (text_eq_iff password hash).1 (some-injective password hash e);
}

abbrev home : World
home = record {
  db = record empty_db {
    users = new_row 1 10 (text "ada") none (text "analytical") 1 ∷ [];
    next_user_id = 2;
  };
  now = 100;
  calls = 0;
  fault = λ n. false;
  drawn = 0;
  fresh = λ n. n ∷ [];
  cookies = [];
}

abbrev store : SessionStore
store = record { cookie_domain = text "example.org"; insecure = false }

abbrev wiki : Text
wiki = text "https://wiki.example.org/start"

abbrev parse_wiki : Text → Option ParsedUrl
parse_wiki s = some (record {
  scheme = text "https";
  host = text "wiki.example.org";
  hostname = text "wiki.example.org";
  path = text "/start";
})

abbrev parse_evil : Text → Option ParsedUrl
parse_evil s = some (record {
  scheme = text "https";
  host = text "example.org.evil.com";
  hostname = text "example.org.evil.com";
  path = [];
})

abbrev filled : Text → LoginForm
filled password = record {
  origin = [];
  referer = [];
  host = text "example.org";
  parsed = true;
  username = text "ada";
  password = password;
  next = wiki;
}

abbrev no_host : Text → Option Text
no_host s = none

code : Unit {0}
unfolding post_login safe_next has_prefix has_suffix verify get_by_username get issue sql ◌>>=◌
    attempt random_token set_cookie text_eq to_lower allow failed success
code = tt

leads_to_wiki : safe_next (text "example.org") true parse_wiki wiki ≡ wiki
unfolding code
leads_to_wiki = refl

not_to_evil :
    safe_next (text "example.org") true parse_evil (text "https://example.org.evil.com") ≡ text "/"
unfolding code
not_to_evil = refl

signs_in :
    (post_login
      (text "example.org")
      true
      parse_wiki
      no_host
      plain
      store
      (text "10.0.0.1")
      none
      (filled (text "analytical"))
      home).0
    ≡ ok (none, found wiki)
unfolding code
signs_in = refl

safe_next-IsSafe_example :
    IsSafe
      (text "example.org")
      true
      parse_wiki
      wiki
      (safe_next (text "example.org") true parse_wiki wiki)
safe_next-IsSafe_example = safe_next-IsSafe (text "example.org") true parse_wiki wiki
