-- ===== src/Portal/Administration/Tests.antt =====
-- The administration at concrete requests.
use nass.Common.{
  ◌≡◌, refl, true, false, Option, none, some, [], ◌∷◌, Text, text, text_eq, parse_int, parse_digits,
}
use nass.Db.{empty_db}
use nass.Db.Monad.{World, ok, ◌>>=◌, sql, attempt, with_tx}
use nass.Users.{new_row, get, list, delete, set_email, set_admin, revoke_sessions}
use nass.Sessions.{new_session, find}
use nass.Portal.Administration.{
  post_set_user_password, admin_required, UserForm, flashes, reports, require_admin, tally,
  can_remove_admin, post_delete_user, post_update_user,
}
use nass.Common.{map, List, text_eq_iff, false}
use mathlib.Core.Option.{some-injective}
use nass.Db.Monad.{random_token, set_cookie}
use nass.Users.{Bcrypt, set_password, generate_hash}
use nass.Sessions.{SessionStore, issue}

-- An administrator, who is signed in, and another account.
abbrev home : World
home = record {
  db = record empty_db {
    users =
        new_row 1 10 (text "ada") none (text "h") 1
        ∷ new_row 2 20 (text "bob") none (text "h") 0
        ∷ [];
    next_user_id = 3;
    portal_sessions = new_session (text "a") 1 500 ∷ new_session (text "b") 2 500 ∷ [];
  };
  now = 100;
  calls = 0;
  fault = λ n. false;
  drawn = 0;
  fresh = λ n. n ∷ [];
  cookies = [];
}

abbrev no_host : Text → Option Text
no_host s = none

abbrev form : Text → Text → UserForm
form id role = record {
  origin = [];
  referer = [];
  host = text "example.org";
  uri = text "/portal/admin";
  id = id;
  parsed = true;
  username = [];
  email = text "bob@example.org";
  password = [];
  is_admin = role;
}

code : Unit {0}
unfolding post_set_user_password set_password generate_hash issue random_token set_cookie
    post_delete_user post_update_user require_admin find get list delete set_email set_admin
    revoke_sessions can_remove_admin tally attempt sql with_tx ◌>>=◌ text_eq parse_int parse_digits
code = tt

deletes_bob :
    (post_delete_user no_host (some (text "a")) (form (text "2") []) home).0
    ≡ ok (flashes (text "deleted user"))
unfolding code
deletes_bob = refl

bob_deletes_none :
    (post_delete_user no_host (some (text "b")) (form (text "1") []) home).0 ≡ ok admin_required
unfolding code
bob_deletes_none = refl

keeps_herself :
    (post_update_user no_host (some (text "a")) (form (text "1") []) home).0
    ≡ ok (reports (text "cannot remove admin from your own account"))
unfolding code
keeps_herself = refl

abbrev plain : Bcrypt
plain = record {
  generate = λ salt password. some password;
  accepts = λ hash password. text_eq password hash;
  accepts_own =
      λ salt password hash e. (text_eq_iff password hash).1 (some-injective password hash e);
}

abbrev store : SessionStore
store = record { cookie_domain = text "example.org"; insecure = false }

-- The sessions that are left after a new password for `id`.
abbrev left : Text → Text → List Text
left id password =
    map (λ s. s.id)
      (post_set_user_password no_host (some (text "a"))
        (record (form id []) { password = password }) plain store home).1.db.portal_sessions

signs_bob_out : left (text "2") (text "brickwork") ≡ text "a" ∷ []
unfolding code
signs_bob_out = refl

keeps_her_browser : left (text "1") (text "analytical") ≡ text "b" ∷ (1 ∷ []) ∷ []
unfolding code
keeps_her_browser = refl

abbrev new_password : UserForm
new_password = record (form (text "2") []) { password = text "brickwork" }
