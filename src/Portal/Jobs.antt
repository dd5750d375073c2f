-- ===== src/Portal/Jobs.antt =====
-- The jobs of internal/portal/admin.go. A job is shared by the list of the portal and the goroutine that ends
-- it, also where the list has dropped it: the jobs stand in a heap, and the list holds their places.
pub mod History
mod Tests
use nass.Common.{
  ℕ, zero, suc, ◌+◌, ◌-◌, ◌*◌, ◌/◌, Bool, true, false, ◌&&◌, Option, none, some, List, [], ◌∷◌, map,
  Text, text, ltb, ◌==◌, nat_eq_test, text_eq_test, length, take, any_of, if◌then◌else◌,
}
use nass.Host.{Trouble, Outcome, done, fails}

pub data JobStatus : Type 0 where
  job_running job_error job_done : JobStatus

-- The message of a job that has failed is the text of its error.
pub data JobMessage : Type 0 where
  plain : Text → JobMessage
  of_error : Trouble → JobMessage

pub record AppJob : Type 0 where
  pub id : ℕ
  pub action : Text
  pub app_name : Text
  pub status : JobStatus
  pub message : JobMessage
  pub started_at : ℕ
  pub finished_at : ℕ

-- A line of JobLog; the duration is in nanoseconds.
pub record JobLine : Type 0 where
  pub event : Text
  pub action : Text
  pub app_name : Text
  pub duration : ℕ
  pub error : Option Trouble

-- Of a Portal: the list, newest first, and what JobLog has received, newest first, where it is not nil.
pub record JobBoard : Type 0 where
  pub heap : ℕ → AppJob
  pub next : ℕ
  pub jobs : List ℕ
  pub job_log : Option (List JobLine)

-- UnixNano, for the times from 1970 on.
abbrev pub unix_nano : ℕ → ℕ
unix_nano now = now - 62135596800000000000

abbrev pub new_job : Text → Text → ℕ → AppJob
new_job action name now = record {
  id = unix_nano now;
  action = action;
  app_name = name;
  status = job_running;
  message = plain (text "running");
  started_at = now;
  finished_at = 0;
}

-- Round(time.Millisecond) of a duration.
abbrev pub round_millisecond : ℕ → ℕ
round_millisecond d = (d + 500000) / 1000000 * 1000000

abbrev pub add_line : JobLine → Option (List JobLine) → Option (List JobLine)
add_line line none = none
add_line line (some lines) = some (line ∷ lines)

unfoldable pub log_app_job : Text → AppJob → Option Trouble → ℕ → JobBoard → JobBoard
log_app_job event job e now b = record b {
  job_log =
      add_line
        (record {
          event = event;
          action = job.action;
          app_name = job.app_name;
          duration = round_millisecond (now - job.started_at);
          error = e;
        })
        b.job_log;
}

abbrev pub put : ℕ → AppJob → (ℕ → AppJob) → ℕ → AppJob
put at job heap i = if i == at then job else heap i

abbrev pub cut : List ℕ → List ℕ
cut jobs = if ltb 20 (length jobs) then take 20 jobs else jobs

-- startAppJob up to its `go` statement: the goroutine is `finish_job`.
unfoldable pub start_app_job : Text → Text → ℕ → JobBoard → JobBoard
start_app_job action name now b =
    log_app_job (text "started") (new_job action name now) none now (record b {
      heap = put b.next (new_job action name now) b.heap;
      next = suc b.next;
      jobs = cut (b.next ∷ b.jobs);
    })

abbrev pub ended_job : Outcome (Unit {0}) → ℕ → AppJob → AppJob
ended_job (done u) now job = record job {
  finished_at = now;
  status = job_done;
  message = plain (text "completed");
}
ended_job (fails t) now job = record job {
  finished_at = now;
  status = job_error;
  message = of_error t;
}

abbrev pub log_end : Outcome (Unit {0}) → AppJob → ℕ → JobBoard → JobBoard
log_end (done u) job now b = log_app_job (text "completed") job none now b
log_end (fails t) job now b = log_app_job (text "failed") job (some t) now b

-- The goroutine, once the function of the job has returned.
unfoldable pub finish_job : ℕ → Outcome (Unit {0}) → ℕ → JobBoard → JobBoard
finish_job at outcome now b =
    let job = ended_job outcome now (b.heap at) in
    log_end outcome job now (record b { heap = put at job b.heap })

unfoldable pub recent_jobs : JobBoard → List AppJob
recent_jobs b = map b.heap b.jobs

abbrev pub is_running_job : JobStatus → Bool
is_running_job job_running = true
is_running_job job_error = false
is_running_job job_done = false

abbrev pub is_running_on : Text → Text → AppJob → Bool
is_running_on action name job =
    job.action == action && (job.app_name == name && is_running_job job.status)

unfoldable pub has_running_job : Text → Text → JobBoard → Bool
has_running_job action name b = any_of (λ at. is_running_on action name (b.heap at)) b.jobs

abbrev pub no_jobs : Option (List JobLine) → JobBoard
no_jobs job_log = record { heap = λ i. new_job [] [] 0; next = 0; jobs = []; job_log = job_log }
