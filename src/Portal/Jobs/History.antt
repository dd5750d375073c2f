-- ===== src/Portal/Jobs/History.antt =====
-- The jobs of internal/portal/admin.go against the history of all that were started.
use nass.Common.{
  inr, inl, Bool-cases, ℕ, zero, suc, ◌≤◌, ◌<◌, ◌≡◌, refl, sym, ap, ap₂, ◌∙◌, Bool, Option, List,
  [], ◌∷◌, map, Text, ltb, ◌==◌, nat_eq_test, nat_eq_iff, length, take, take-take-suc, take_all,
  any_of, if◌then◌else◌, arith,
}
use nass.Host.{Outcome, done, fails}
use nass.Portal.Jobs.{
  AppJob, JobBoard, JobLine, job_running, new_job, put, cut, start_app_job, ended_job, finish_job,
  recent_jobs, has_running_job, is_running_on, no_jobs, log_app_job,
}

-- What happens to jobs, newest first: a start, or the end of the job that was started as number `at`.
pub data Event : Type 0 where
  started : Text → Text → ℕ → Event
  ended : ℕ → Outcome (Unit {0}) → ℕ → Event

abbrev pub change_at : ℕ → (AppJob → AppJob) → List AppJob → List AppJob
change_at at f [] = []
change_at at f (job ∷ jobs) = if length jobs == at then f job ∷ jobs else job ∷ change_at at f jobs

-- All jobs, newest first, each with its last state.
unfoldable pub history : List Event → List AppJob
history [] = []
history (started action name now ∷ events) = new_job action name now ∷ history events
history (ended at outcome now ∷ events) = change_at at (ended_job outcome now) (history events)

-- The steps of the portal in any order: a request starts a job, and the goroutine of a job ends it.
pub data Runs (job_log : Option (List JobLine)) : List Event → JobBoard → Type 0 where
  nothing_yet : Runs job_log [] (no_jobs job_log)
  starts :
      {events : List Event} {b : JobBoard} (action name : Text) (now : ℕ)
      → Runs job_log events b
      → Runs job_log (started action name now ∷ events) (start_app_job action name now b)
  ends :
      {events : List Event} {b : JobBoard} (at : ℕ) (outcome : Outcome (Unit {0})) (now : ℕ)
      → at < b.next
      → (b.heap at).status ≡ job_running
      → Runs job_log events b
      → Runs job_log (ended at outcome now ∷ events) (finish_job at outcome now b)

-- The first n jobs of a heap, and their places, newest first.
abbrev pub listed : ℕ → (ℕ → AppJob) → List AppJob
listed zero heap = []
listed (suc n) heap = heap n ∷ listed n heap

abbrev pub places : ℕ → List ℕ
places zero = []
places (suc n) = n ∷ places n

length-listed : (n : ℕ) (heap : ℕ → AppJob) → length (listed n heap) ≡ n
length-listed zero heap = refl
length-listed (suc n) heap = ap suc (length-listed n heap)

put_other : (at i : ℕ) (job : AppJob) (heap : ℕ → AppJob) → i < at → put at job heap i ≡ heap i
put_other at i job heap h = ground arith

put_same : (at : ℕ) (job : AppJob) (heap : ℕ → AppJob) → put at job heap at ≡ job
put_same at job heap = ground arith

listed-put-beyond :
    (n at : ℕ) (job : AppJob) (heap : ℕ → AppJob)
    → n ≤ at
    → listed n (put at job heap) ≡ listed n heap
listed-put-beyond zero at job heap h = refl
listed-put-beyond (suc n) at job heap h =
    ap₂ (λ j js. j ∷ js) (put_other at n job heap (omega (arith, h)))
      (listed-put-beyond n at job heap (omega (arith, h)))

map-take : {A B : Type 0} (f : A → B) (n : ℕ) (xs : List A) → map f (take n xs) ≡ take n (map f xs)
map-take f zero xs = refl
map-take f (suc n) [] = refl
map-take f (suc n) (x ∷ xs) = ap (λ ys. f x ∷ ys) (map-take f n xs)

map-places : (n : ℕ) (heap : ℕ → AppJob) → map heap (places n) ≡ listed n heap
map-places zero heap = refl
map-places (suc n) heap = ap (λ jobs. heap n ∷ jobs) (map-places n heap)

cut-take : (jobs : List ℕ) → cut jobs ≡ take 20 jobs
cut-take jobs = elim (Bool-cases (ltb 20 (length jobs))) [
  | inl t ↦ rw t refl
  | inr f ↦ rw f (sym (take_all 20 jobs (ground (arith, f))))
]

listed-put :
    (n at : ℕ) (f : AppJob → AppJob) (heap : ℕ → AppJob)
    → at < n
    → listed n (put at (f (heap at)) heap) ≡ change_at at f (listed n heap)
listed-put zero at f heap h = absurd (omega (arith, h))
listed-put (suc n) at f heap h = elim (Bool-cases (n == at)) [
  | inl t ↦ rw (length-listed n heap) (
      rw t (
        ap₂ (λ j js. j ∷ js) (ap (λ i. f (heap i)) (sym ((nat_eq_iff n at).0 t)))
          (listed-put-beyond n at (f (heap at)) heap (omega (arith, (nat_eq_iff n at).0 t)))))
  | inr e ↦
      rw (length-listed n heap)
        (rw e (ap (λ jobs. heap n ∷ jobs) (listed-put n at f heap (ground arith))))
]

abbrev pub all_jobs : JobBoard → List AppJob
all_jobs b = listed b.next b.heap

any_of-map :
    {A B : Type 0} (p : B → Bool) (f : A → B) (xs : List A)
    → any_of (λ x. p (f x)) xs ≡ any_of p (map f xs)
any_of-map p f [] = refl
any_of-map p f (x ∷ xs) = rw (any_of-map p f xs) refl

module _ {job_log : Option (List JobLine)} where
  places-Runs :
      {events : List Event} {b : JobBoard}
      → Runs job_log events b
      → b.jobs ≡ take 20 (places b.next)
  unfolding start_app_job finish_job log_app_job
  places-Runs nothing_yet = refl
  places-Runs (starts {events} {b} action name now runs) =
      cut-take (b.next ∷ b.jobs)
      ∙ ap (λ jobs. b.next ∷ jobs)
          (ap (take 19) (places-Runs runs) ∙ take-take-suc 19 (places b.next))
  places-Runs (ends at (done u) now below live runs) = places-Runs runs
  places-Runs (ends at (fails t) now below live runs) = places-Runs runs

  history-Runs :
      {events : List Event} {b : JobBoard} → Runs job_log events b → all_jobs b ≡ history events
  unfolding start_app_job finish_job log_app_job history
  history-Runs nothing_yet = refl
  history-Runs (starts {events} {b} action name now runs) =
      ap₂ (λ j js. j ∷ js) (put_same b.next (new_job action name now) b.heap)
        (listed-put-beyond b.next b.next (new_job action name now) b.heap (omega arith)
          ∙ history-Runs runs)
  history-Runs (ends {events} {b} at (done u) now below live runs) =
      listed-put b.next at (ended_job (done u) now) b.heap below
      ∙ ap (change_at at (ended_job (done u) now)) (history-Runs runs)
  history-Runs (ends {events} {b} at (fails t) now below live runs) =
      listed-put b.next at (ended_job (fails t) now) b.heap below
      ∙ ap (change_at at (ended_job (fails t) now)) (history-Runs runs)

  -- However starts and ends of jobs interleave, the administrator sees the latest 20 that were
  -- started, newest first, each as its own end has left it, and the test for a running job looks at just these.
  pub recent_jobs-history :
      (events : List Event) (b : JobBoard)
      → Runs job_log events b
      → (recent_jobs b ≡ take 20 (history events))
        × ((action name : Text)
            → has_running_job action name b
              ≡ any_of (is_running_on action name) (take 20 (history events)))
  unfolding recent_jobs has_running_job history
  recent_jobs-history events b runs =
      let seen : map b.heap b.jobs ≡ take 20 (history events) =
        ap (map b.heap) (places-Runs runs)
        ∙ map-take b.heap 20 (places b.next)
        ∙ ap (take 20) (map-places b.next b.heap ∙ history-Runs runs) in
      (
        seen,
        λ action name.
            any_of-map (is_running_on action name) b.heap b.jobs
            ∙ ap (any_of (is_running_on action name)) seen,
      )
