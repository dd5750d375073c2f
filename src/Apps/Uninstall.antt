-- ===== src/Apps/Uninstall.antt =====
-- internal/apps/uninstall.go: the removal of an app.
pub mod Down
pub mod Forgetting
pub mod Removal
pub mod Paths
use nass.Common.{
  ℕ, Bool, true, false, not, ◌&&◌, ◌||◌, Option, none, some, List, [], ◌∷◌, ◌++◌, Text, text,
  is_empty, ◌==◌, nat_eq_test, text_eq_test, dir, contains, find_if, any_of, if◌then◌else◌,
}
use nass.Db.{Db, AppRow, SettingsJson, blank, broken, decoded, AppSettings}
use nass.Db.Rows.{delete_where}
use nass.Db.Monad.{M, sql, ok, query}
use nass.Host.{
  H, Host, Call, remove, remove_all, Failure, Trouble, says, from_db, from_system, within, Outcome,
  done, fails, return, raise, act, in_db, wrapped, when, caught, ◌>>=◌, ◌>>◌,
}
use nass.Orchestrator.{Orchestrator, down_with_volumes}
use nass.Oidc.Clients.{cleanup_client}

pub record UninstallContext : Type 0 where
  pub name : Text
  pub compose_file : Text
  pub data_root : Text
  pub keep_data : Bool
  pub force : Bool
  pub orchestrator : Option Orchestrator

-- The text of an error that has a cause; those of the database do not occur where it is asked for.
abbrev pub message_of : Trouble → Text
message_of (says message) = message
message_of (from_db e) = []
message_of (from_system f) = f.message
message_of (within what t) = what ++ (text ": " ++ message_of t)

abbrev pub is_not_exist : Trouble → Bool
is_not_exist (says message) = false
is_not_exist (from_db e) = false
is_not_exist (from_system f) = f.not_exist
is_not_exist (within what t) = is_not_exist t

unfoldable pub is_missing_compose_file : Trouble → Bool
is_missing_compose_file t =
    is_not_exist t
    || (contains (message_of t) (text "no such file or directory")
        || contains (message_of t) (text "Cannot find file"))

-- `none` where the containers are down, or there were none; else what the command has reported.
abbrev pub down_outcome : Bool → Outcome Text → H (Option Trouble)
down_outcome force (done out) = return none
down_outcome force (fails t) =
    when (is_missing_compose_file t) (return none)
      (when force (return (some t)) (raise (within (text "compose down") t)))

abbrev pub down_with : UninstallContext → Option Orchestrator → H (Option Trouble)
down_with uc none = return none
down_with uc (some o) = do
  outcome ← caught (down_with_volumes o uc.compose_file)
  down_outcome uc.force outcome

abbrev pub take_down : UninstallContext → H (Option Trouble)
take_down uc = when (is_empty uc.compose_file) (return none) (down_with uc uc.orchestrator)

abbrev pub has_app : Text → Db → Bool
has_app name db = any_of (λ a. a.name == name) db.apps

abbrev pub delete_app : Text → Db → Db
delete_app name db = record db { apps = delete_where (λ a. a.name == name) db.apps }

-- `DELETE FROM apps WHERE name = ?`, and whether a row was affected.
unfoldable pub delete_app_row : Text → M Bool
delete_app_row name = sql (λ db. ok (has_app name db, delete_app name db))

-- os.Remove, where a file that is not there is no error.
abbrev pub removed_file : Outcome Text → H (Unit {0})
removed_file (done out) = return tt
removed_file (fails t) =
    when (is_not_exist t) (return tt) (raise (within (text "remove compose file") t))

abbrev pub remove_data : UninstallContext → H (Unit {0})
remove_data uc =
    when (not uc.keep_data && not (is_empty uc.data_root))
      (do out ← wrapped (text "remove data root") (act (remove_all uc.data_root)); return tt)
      (return tt)

-- The error of the removal of the parent is thrown away.
abbrev pub remove_compose : UninstallContext → H (Unit {0})
remove_compose uc = when (is_empty uc.compose_file) (return tt) (do
  outcome ← caught (act (remove uc.compose_file))
  removed_file outcome
  parent ← caught (act (remove (dir uc.compose_file)))
  return tt)

-- With containers that may still be running, nothing is removed from the disk.
abbrev pub remove_files : UninstallContext → Option Trouble → H (Unit {0})
remove_files uc (some t) =
    raise (within (text "removed from nass, but its containers may still be running") t)
remove_files uc none = do remove_data uc; remove_compose uc

abbrev pub forget_app : UninstallContext → H (Unit {0})
forget_app uc = do
  wrapped (text "cleanup oidc client") (in_db (cleanup_client uc.name))
  found ← wrapped (text "delete app row") (in_db (delete_app_row uc.name))
  when found (return tt) (raise (says (text "app is not installed")))

unfoldable pub uninstall : UninstallContext → H (Unit {0})
uninstall uc =
    when (is_empty uc.name) (raise (says (text "uninstall: name required")))
      (do down ← take_down uc; forget_app uc; remove_files uc down)

pub record AppPaths : Type 0 where
  pub compose_file : Text
  pub data_root : Text

-- `none` is an error of the decoding; `some none` is a missing row.
abbrev pub paths_in : SettingsJson → Option (Option AppPaths)
paths_in blank = some (some (record { compose_file = []; data_root = [] }))
paths_in broken = none
paths_in (decoded s) =
    some (some (record { compose_file = s.compose_file; data_root = s.data_root }))

abbrev pub paths_of : Option AppRow → Option (Option AppPaths)
paths_of none = some none
paths_of (some a) = paths_in a.settings_json

abbrev pub loaded_paths : Option (Option AppPaths) → H (Option AppPaths)
loaded_paths none = raise (says (text "decode settings"))
loaded_paths (some found) = return found

unfoldable pub load_app_paths : Text → H (Option AppPaths)
load_app_paths name = do
  row ← in_db (query (λ db. find_if (λ a. a.name == name) db.apps))
  loaded_paths (paths_of row)
