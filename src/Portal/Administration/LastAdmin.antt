-- ===== src/Portal/Administration/LastAdmin.antt =====
-- postUpdateUser of internal/portal/admin.go: the last administrator.
use nass.Common.{
  text, text, ℕ, ◌≡◌, Bool, true, not, ◌&&◌, Option, List, Text, ◌==◌, nat_eq_test, any_of,
}
use nass.Db.{Db, UserRow}
use nass.Db.Ensures.{Ensures}
use nass.Portal.Administration.{UserForm}

abbrev pub is_admin_row : UserRow → Bool
is_admin_row u = not (u.is_admin == 0)

abbrev pub HasAdmin : Db → Type 0
HasAdmin db = any_of is_admin_row db.users ≡ true

-- Account `k` is that of an administrator.
abbrev IsAdminId : ℕ → List UserRow → Type 0
IsAdminId k us = any_of (λ u. (u.id == k) && is_admin_row u) us ≡ true

module _ (url_host : Text → Option Text) (cookie : Text) (f : UserForm) (n k : ℕ) where
  abbrev Keeps : {A : Type 0} → A → Db → Type 0
  Keeps page db = HasAdmin db
