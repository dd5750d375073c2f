-- ===== src/Orchestrator.antt =====
-- internal/orchestrator: the commands of Docker Compose. Decoding JSON is a parameter: an array or an
-- object, with the text of each `State` that is a string.
pub mod Commands
mod Tests
use nass.Common.{
  Bool, true, false, Option, none, some, List, [], ◌∷◌, ◌++◌, Text, text, is_empty, trim_space,
  split, join, fields, to_lower, has_prefix, is_abs, join_path, if◌then◌else◌, ◌==◌, text_eq_test,
  any_of,
}
use nass.Host.{
  Host, H, Failure, Reply, fine, broken, Call, run_command, Trouble, says, from_system, return,
  raise, act, asked, ◌>>=◌, Outcome, done, fails,
}

pub record Orchestrator : Type 0 where
  pub compose_root : Text
  pub docker_compose : List Text

unfoldable pub new_orchestrator : Text → Text → Orchestrator
unfolding fields
new_orchestrator compose_root docker_compose = record {
  compose_root = compose_root;
  docker_compose =
      fields (if is_empty docker_compose then text "docker compose" else docker_compose);
}

pub data State : Type 0 where
  running stopped unknown : State

-- The path of a compose file, or the message of the error.
pub data Resolved : Type 0 where
  at_path : Text → Resolved
  refused : Text → Resolved

unfoldable pub resolve : Orchestrator → Text → Resolved
resolve o compose_file =
    if is_empty compose_file
    then refused (text "compose_file is empty")
    else if is_abs compose_file
    then at_path compose_file
    else if is_empty o.compose_root
    then refused (text "compose_file is relative but orchestrator.compose_root is empty")
    else at_path (join_path o.compose_root compose_file)

abbrev pub argv_of : List Text → Text → List Text → List Text
argv_of rest file args = rest ++ text "-f" ∷ file ∷ args

-- `"%s %s: %w (%s)"`
abbrev pub run_failure : Text → List Text → Failure → Text → Failure
run_failure command argv e out = record e {
  message =
      command
      ++ b' '
        ∷ (join b' ' argv
            ++ (text ": " ++ (e.message ++ (text " (" ++ (trim_space out ++ text ")")))));
}

abbrev pub run_reply : Text → List Text → Reply → Host → Outcome Text × Host
run_reply command argv (fine out) h = (done out, h)
run_reply command argv (broken e out) h = (fails (from_system (run_failure command argv e out)), h)

abbrev pub run_with : List Text → Text → List Text → H Text
run_with [] file args h = (fails (says (text "docker_compose is unset")), h)
run_with (command ∷ rest) file args h =
    let argv = argv_of rest file args in
    let c = run_command command argv in run_reply command argv (h.reply h.made c) (asked c h)

abbrev pub run_at : Orchestrator → Resolved → List Text → H Text
run_at o (refused message) args = raise (says message)
run_at o (at_path path) args = run_with o.docker_compose path args

-- `path, err := o.resolve(composeFile)`, and then the command.
unfoldable pub run : Orchestrator → Text → List Text → H Text
run o compose_file args = run_at o (resolve o compose_file) args

abbrev pub up_args : List Text
up_args = text "up" ∷ text "-d" ∷ []

abbrev pub down_with_volumes_args : List Text
down_with_volumes_args = text "down" ∷ text "-v" ∷ text "--remove-orphans" ∷ []

abbrev pub kill_args : Text → List Text
kill_args service = text "kill" ∷ (if is_empty service then [] else service ∷ [])

module _ (o : Orchestrator) (compose_file : Text) where
  unfoldable pub up : H Text
  up = run o compose_file up_args

  unfoldable pub down : H Text
  down = run o compose_file (text "down" ∷ [])

  unfoldable pub down_with_volumes : H Text
  down_with_volumes = run o compose_file down_with_volumes_args

  unfoldable pub restart : H Text
  restart = run o compose_file (text "restart" ∷ [])

  unfoldable pub kill : Text → H Text
  kill service = run o compose_file (kill_args service)

  unfoldable pub exec : Text → List Text → H Text
  exec service args = run o compose_file (text "exec" ∷ text "-T" ∷ service ∷ args)

  unfoldable pub exec_as_user : Text → Text → List Text → H Text
  exec_as_user service user args =
      run o compose_file (text "exec" ∷ text "-T" ∷ text "--user" ∷ user ∷ service ∷ args)

abbrev pub is_running : Option Text → Bool
is_running none = false
is_running (some s) = to_lower s == text "running"

abbrev pub infer_state : List (Option Text) → State
infer_state rows = if any_of is_running rows then running else stopped

abbrev pub add_row :
    Option (Option Text) → Option (List (Option Text)) → Option (List (Option Text))
add_row none rows = none
add_row (some row) none = none
add_row (some row) (some rows) = some (row ∷ rows)

abbrev pub state_or : Option (List (Option Text)) → H State
state_or none = raise (says (text "parse ps"))
state_or (some rows) = return (infer_state rows)

module _ (json_array : Text → Option (List (Option Text)))
    (json_object : Text → Option (Option Text)) where
  -- The loop over the lines: those that are blank are passed over.
  abbrev pub rows_of : List Text → Option (List (Option Text))
  rows_of [] = some []
  rows_of (line ∷ lines) =
      if is_empty (trim_space line)
      then rows_of lines
      else add_row (json_object (trim_space line)) (rows_of lines)

  abbrev pub state_of_output : Text → H State
  state_of_output out =
      if is_empty out
      then return stopped
      else if out == text "[]"
      then return stopped
      else if has_prefix out (text "[")
      then state_or (json_array out)
      else state_or (rows_of (split b'\n' out))

  -- An error goes with StateUnknown.
  unfoldable pub status : Orchestrator → Text → H State
  status o compose_file = do
    out ← run o compose_file (text "ps" ∷ text "--format" ∷ text "json" ∷ [])
    state_of_output (trim_space out)
