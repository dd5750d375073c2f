-- ===== src/Portal/Administration/Deletion.antt =====
-- postDeleteUser of internal/portal/admin.go: who may delete which account.
use nass.Common.{ℕ, ◌≡◌, refl, true, false, Option, some, Text, ◌==◌, nat_eq_test}
use nass.Db.{Db, UserRow}
use nass.Db.Ensures.{Ensures, ensures-pure, ensures-query}
use nass.Users.{User, user_of, find_user, has_user, delete_user}
use nass.Sessions.{Session}
use nass.Portal.Login.{same_origin}
use nass.Portal.Administration.{AdminPage, flashes, UserForm, user_id_from_path, can_remove_admin}
use nass.Portal.Administration.Admission.{SameUsers, IsAdmin}

-- An account, and all else that an administrator's request has deleted with it.
abbrev pub IsDeleted : ℕ → Db → Db → Type 0
IsDeleted id before db = (has_user id before ≡ true) × (db ≡ delete_user id before)

pub can_remove_admin-ensures :
    (n id : ℕ) (before : Db)
    → Ensures n (λ db. db ≡ before) (can_remove_admin id) (λ _ db. db ≡ before) (λ db. db ≡ before)
unfolding can_remove_admin nass.Users.list
can_remove_admin-ensures n id before = ensures-query _ _ refl λ users e. ensures-pure _ (λ db p. p)

module _ (url_host : Text → Option Text) (cookie : Text) (f : UserForm) where
  -- An administrator, in a request that sameOrigin lets pass, deleted the account of the path, which is another's;
  -- the account of the administrator is still there.
  abbrev pub IsDeletion : ℕ → Db → Db → Type 0
  IsDeletion now before db =
      (s : Session) × IsAdmin cookie f.uri now before s
      × (same_origin url_host f.origin f.referer f.host ≡ true)
      × (id : ℕ) × (user_id_from_path f.id ≡ some id)
      × ((id == s.user.id) ≡ false)
      × IsDeleted id before db
      × (u : UserRow) × (find_user s.user.id db ≡ some u)
      × (s.user ≡ user_of u)

  abbrev pub IsOutcome : ℕ → Db → AdminPage → Db → Type 0
  IsOutcome now before (flashes m) db = IsDeletion now before db
  IsOutcome now before page db = SameUsers before db
