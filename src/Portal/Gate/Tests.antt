-- ===== src/Portal/Gate/Tests.antt =====
-- The gate at a concrete request.
use nass.Common.{◌≡◌, refl, true, false, none, some, [], ◌∷◌, Text, text, text_eq}
use nass.Db.{UserRow, empty_db}
use nass.Db.Monad.{World, ok, ◌>>=◌, sql, attempt}
use nass.Common.{insert, delete}
use nass.Users.{new_row, get}
use nass.Sessions.{new_session, find}
use nass.Proxy.{Request, drop_headers}
use nass.Portal.Gate.{forwards, wrap}

abbrev bob : UserRow
bob = new_row 2 20 (text "bob") none (text "brickwork") 0

abbrev home : World
home = record {
  db = record empty_db {
    users = bob ∷ [];
    next_user_id = 3;
    portal_sessions = new_session (text "b") 2 500 ∷ [];
  };
  now = 100;
  calls = 0;
  fault = λ n. false;
  drawn = 0;
  fresh = λ n. n ∷ [];
  cookies = [];
}

-- A client that calls itself an administrator.
abbrev forged : Request
forged = record {
  host = text "files.example.org";
  headers =
      (text "Remote-User", text "root")
      ∷ (text "Remote-Groups", text "admin")
      ∷ (text "Accept", text "*/*")
      ∷ [];
}

abbrev same_text : Text → Text
same_text s = s

code : Unit {0}
unfolding wrap find attempt get sql ◌>>=◌ text_eq insert delete drop_headers
code = tt

told_as_bob :
    (wrap same_text (text "https://example.org") true (text "/") (some (text "b")) forged home).0
    ≡ ok (
        forwards (record forged {
          headers =
              (text "Accept", text "*/*")
              ∷ (text "Remote-User", text "bob")
              ∷ (text "Remote-Name", text "bob")
              ∷ [];
        }))
unfolding code
told_as_bob = refl
