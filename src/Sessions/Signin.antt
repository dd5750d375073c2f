-- ===== src/Sessions/Signin.antt =====
-- Issue and PurgeExpired of internal/portal/session.go: a session lasts as long as it was issued for.
use nass.Common.{
  ap₂, suc, ℕ, ◌+◌, ◌≤◌, ◌≡◌, refl, sym, ap, ◌∙◌, false, none, some, Text, ltb, ◌==◌, text_eq_test,
  text_eq_refl, nat_eq_test, any_of, arith,
}
use nass.Db.{Db, UserRow, SessionRow}
use nass.Db.Rows.{find_if-spared, find_if-append_none, find_if-any_of}
use nass.Db.Monad.{World, ok, ◌>>=◌, sql}
use nass.Db.Ensures.{
  Holds-now, Holds-ok, Ensures, Anything, ensures-pure, ensures-to, ensures-given, ensures-from,
  ensures-bind, ensures-now, ensures-exec_checked, violation-none, ensures-random,
  ensures-set_cookie,
}
use nass.Users.{User, user_of, get, find_user}
use nass.Users.Lookup.{get-ensures}
use nass.Sessions.{
  Session, SessionStore, find, issue, purge_expired, new_session, insert_session, session_ttl,
  delete_expired_sessions, find_session,
}
use nass.Sessions.Lookup.{IsSessionOf, find-Holds}

-- A statement-by-statement run of Lookup, where none fails.
find-row :
    (cookie : Text) (w : World) (row : SessionRow) (user : UserRow)
    → ((n : ℕ) → w.fault n ≡ false)
    → find_session cookie w.db ≡ some row
    → find_user row.user_id w.db ≡ some user
    → ltb row.expires_at w.now ≡ false
    → (find (some cookie) w).0
      ≡ ok (some (record { id = cookie; user = user_of user; expires = row.expires_at }))
unfolding find sql ◌>>=◌ get
find-row cookie w row user h e e' live = rw (h w.calls, e, live, h (suc w.calls), e') refl

module _ (store : SessionStore) (user_id : ℕ) where
  abbrev pub IsIssued : ℕ → Db → Session → Db → Type 0
  IsIssued now before s db =
      (user : UserRow) × (s.expires ≡ now + session_ttl)
      × (db ≡ insert_session (new_session s.id user_id s.expires) before)
      × (find_session s.id before ≡ none)
      × (find_user user_id before ≡ some user)
      × (s.user ≡ user_of user)

  inserted :
      (id : Text) (expires : ℕ) (before db : Db)
      → db ≡ before
      → any_of (λ r. r.id == id) db.portal_sessions ≡ false
      → (find_session id before ≡ none)
        × (insert_session (new_session id user_id expires) db
            ≡ insert_session (new_session id user_id expires) before)
  inserted id expires before db e t =
      (find_if-any_of (λ r. r.id == id) before.portal_sessions (rw e at t), ap (insert_session _) e)

  pub issue-ensures :
      (n : ℕ) (before : Db)
      → Ensures n (λ db. db ≡ before) (issue store user_id) (IsIssued n before) Anything
  unfolding issue
  issue-ensures n before =
      ensures-random _ (λ db p. tt)
        λ id. ensures-now _ (
          ensures-bind
            (λ _ db.
              (find_session id before ≡ none)
              × (db ≡ insert_session (new_session id user_id (n + session_ttl)) before))
            _ _
            (ensures-exec_checked _ _
              (λ db p t. inserted id (n + session_ttl) before db p (violation-none _ _ _ t).0)
              (λ db p. tt))
            λ _.
              ensures-given _ (λ db p. p.0)
                λ new.
                  ensures-from _ _ (λ db p. p.1)
                    (ensures-set_cookie _ _ (
                      ensures-bind _ _ _
                        (ensures-to _ _ _ (λ u db q. q) (λ db q. tt) (get-ensures n user_id _))
                        λ u.
                          ensures-pure _
                            (λ db ((user, found, same), p). (user, refl, p, new, found, same)))))

  found_session :
      (id : Text) (expires : ℕ) (before db : Db)
      → db ≡ insert_session (new_session id user_id expires) before
      → find_session id before ≡ none
      → find_session id db ≡ some (new_session id user_id expires)
  found_session id expires before db e new = rw e (
      find_if-append_none (λ s. s.id == id) before.portal_sessions _ new
      ∙ rw (text_eq_refl id) refl)

  -- A session that Issue has returned is found by its cookie, with the same user and the same expiry,
  -- for as long as the clock has not passed that expiry, seven days after the issue: where the
  -- rows are as Issue left them and no statement of Lookup fails.
  pub find-issue :
      (w w' later : World) (s : Session)
      → issue store user_id w ≡ (ok s, w')
      → later.db ≡ w'.db
      → later.now ≤ w.now + session_ttl
      → ((n : ℕ) → later.fault n ≡ false)
      → (find (some s.id) later).0 ≡ ok (some s)
  find-issue w w' later s issued same live h =
      let (user, expiry, e, new, found, e') =
        Holds-ok _ _ _ _ s w' ((issue-ensures w.now w.db).at w refl refl) issued in
      find-row s.id later (new_session s.id user_id s.expires) user h
        (rw same (found_session s.id s.expires w.db w'.db e new)) (rw (same, e) found)
        (ground (arith, expiry, live))
      ∙ ap (λ u. ok (some (record { id = s.id; user = u; expires = s.expires }))) (sym e')

live_after_purge :
    (cutoff : ℕ) (cookie : Text) (w : World) (before : Db) (s : Session)
    → cutoff ≤ w.now
    → ((n : ℕ) → w.fault n ≡ false)
    → w.db ≡ delete_expired_sessions cutoff before
    → IsSessionOf cookie w.now before s
    → (find (some cookie) w).0 ≡ ok (some s)
live_after_purge cutoff cookie w before s early h e
      (row, found, same, named, live, user, found', same') =
    find-row cookie w row user h
      (rw e (
        find_if-spared (λ r. r.id == cookie) (λ r. ltb r.expires_at cutoff) before.portal_sessions
          found (ground (arith, same, live, early))))
      (rw e found') (ground (arith, same, live))
    ∙ ap₂ (λ (t : Text × ℕ) (u : User). ok (some (record { id = t.0; user = u; expires = t.1 })))
        (ap₂ (λ a b. (a, b)) (sym named) same) (sym same')

-- PurgeExpired signs nobody out: with a cutoff that the clock has reached, a cookie that Lookup
-- resolves before the purge resolves to the same session right after it, where no statement fails.
find-purge_expired :
    (cutoff : ℕ) (cookie : Text) (w w' : World) (s : Session)
    → cutoff ≤ w.now
    → find (some cookie) w ≡ (ok (some s), w')
    → ((n : ℕ) → w'.fault n ≡ false)
    → (find (some cookie) (purge_expired cutoff w').1).0 ≡ ok (some s)
unfolding purge_expired sql
find-purge_expired cutoff cookie w w' s early found h =
    let same = Holds-now _ _ _ _ (some s) w' (find-Holds cookie w) found in
    let (is_session, kept) = Holds-ok _ _ _ _ (some s) w' (find-Holds cookie w) found in
    rw (h w'.calls) (
      live_after_purge cutoff cookie _ w.db s (rw (← same) at early) h
        (ap (delete_expired_sessions cutoff) kept) (rw same is_session))
