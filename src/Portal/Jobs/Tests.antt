-- ===== src/Portal/Jobs/Tests.antt =====
-- Jobs that start and end in turn.
use nass.Common.{
  ◌≡◌, refl, true, false, some, List, [], ◌∷◌, Text, text, text_eq, take, any_of, arith,
}
use nass.Host.{says, fails}
use nass.Portal.Jobs.{
  JobBoard, no_jobs, start_app_job, finish_job, recent_jobs, has_running_job, is_running_on,
  log_app_job,
}
use nass.Portal.Jobs.History.{
  Event, started, ended, history, Runs, nothing_yet, starts, ends, recent_jobs-history,
}

code : Unit {0}
unfolding start_app_job finish_job recent_jobs has_running_job log_app_job text_eq history
code = tt

-- The installation of `wiki` fails while that of `blog` still runs.
abbrev board : JobBoard
unfolding code
board = finish_job 0 (fails (says (text "pull"))) 30 (
    start_app_job (text "install") (text "blog") 20
      (start_app_job (text "install") (text "wiki") 10 (no_jobs (some []))))

abbrev events : List Event
events =
    ended 0 (fails (says (text "pull"))) 30
    ∷ started (text "install") (text "blog") 20
    ∷ started (text "install") (text "wiki") 10
    ∷ []

overlapping : Runs (some []) events board
unfolding code
overlapping = ends 0 (fails (says (text "pull"))) 30 (omega arith) refl (
    starts (text "install") (text "blog") 20 (starts (text "install") (text "wiki") 10 nothing_yet))

recent_jobs-history_example :
    (recent_jobs board ≡ take 20 (history events))
    × ((action name : Text)
        → has_running_job action name board
          ≡ any_of (is_running_on action name) (take 20 (history events)))
recent_jobs-history_example = recent_jobs-history events board overlapping

still_runs : has_running_job (text "install") (text "blog") board ≡ true
unfolding code
still_runs = refl

has_ended : has_running_job (text "install") (text "wiki") board ≡ false
unfolding code
has_ended = refl
