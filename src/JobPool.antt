-- ===== src/JobPool.antt =====
-- backend/app/services/task_scheduler.py, `TaskScheduler`: the pool of asyncio jobs, at most one for a
-- task. Job objects are numbers; what the event loop does to them are the steps `ended` and `finished`.
pub mod Bounds
use agent_demo.Prelude.{
  ℕ, ◌*◌, ◌≡◌, max, Bool, true, false, not, ◌&&◌, Option, none, some, List, [], ◌∷◌, leb, ◌==◌,
  if◌then◌else◌, length, is_some,
}

-- An `asyncio.Task`: `is_done` is `done()`, and `cancelling` that `cancel()` was called.
pub record Job : Type 0 where
  pub job : ℕ
  pub is_done : Bool
  pub cancelling : Bool

-- `_jobs`, a dict by task id.
abbrev pub Jobs : Type 0
Jobs = List (ℕ × Job)

abbrev pub job_of_task : ℕ → Jobs → Option Job
job_of_task key [] = none
job_of_task key ((k, j) ∷ jobs) = if k == key then some j else job_of_task key jobs

-- `self._jobs[key] = job`
unfoldable pub put_job : ℕ → Job → Jobs → Jobs
put_job key job [] = (key, job) ∷ []
put_job key job ((k, j) ∷ jobs) =
    if k == key then (k, job) ∷ jobs else (k, j) ∷ put_job key job jobs

-- `self._jobs.pop(key, None)`
unfoldable pub pop_job : ℕ → Jobs → Jobs
pop_job key [] = []
pop_job key ((k, j) ∷ jobs) = if k == key then jobs else (k, j) ∷ pop_job key jobs

-- `max(max_concurrency or settings.agent_task_max_concurrency, 1)`
unfoldable pub concurrency : Option ℕ → ℕ → ℕ
concurrency none default = max default 1
concurrency (some n) default = if n == 0 then max default 1 else n

abbrev pub is_live : Option Job → Bool
is_live none = false
is_live (some j) = not j.is_done

abbrev pub new_job : ℕ → Job
new_job job = record { job = job; is_done = false; cancelling = false }

-- `enqueue`, within a running event loop, which makes the job `fresh`.
unfoldable pub enqueue : ℕ → ℕ → ℕ → Jobs → Bool × Jobs
enqueue max_concurrency key fresh jobs =
    if is_live (job_of_task key jobs)
    then (false, jobs)
    else if leb (max_concurrency * 2) (length jobs)
    then (false, jobs)
    else (true, put_job key (new_job fresh) jobs)

cancel_job : ℕ → Option Job → Jobs → Bool × Jobs
cancel_job key none jobs = (false, jobs)
cancel_job key (some j) jobs =
    if j.is_done then (false, jobs) else (true, put_job key (record j { cancelling = true }) jobs)

unfoldable pub cancel : ℕ → Jobs → Bool × Jobs
unfolding cancel_job
cancel key jobs = cancel_job key (job_of_task key jobs) jobs

abbrev pub is_job : ℕ → Option Job → Bool
is_job job none = false
is_job job (some j) = j.job == job

-- `_job_finished`, the callback of a job that is done; what it logs is left out.
unfoldable pub job_finished : ℕ → ℕ → Jobs → Jobs
job_finished key job jobs = if is_job job (job_of_task key jobs) then pop_job key jobs else jobs

-- The event loop ends a job: the object in the dict is done.
unfoldable pub end_job : ℕ → Jobs → Jobs
end_job job [] = []
end_job job ((k, j) ∷ jobs) =
    (k, record j { is_done = if j.job == job then true else j.is_done }) ∷ end_job job jobs

-- What can happen to the pool, in any order.
pub data Step (max_concurrency : ℕ) (jobs : Jobs) : Jobs → Type 0 where
  enqueued : (key fresh : ℕ) → Step max_concurrency jobs (enqueue max_concurrency key fresh jobs).1
  cancelled : (key : ℕ) → Step max_concurrency jobs (cancel key jobs).1
  ended : (job : ℕ) → Step max_concurrency jobs (end_job job jobs)
  finished : (key job : ℕ) → Step max_concurrency jobs (job_finished key job jobs)

-- The pools that a fresh scheduler can reach.
pub data Reach (max_concurrency : ℕ) : Jobs → Type 0 where
  empty : Reach max_concurrency []
  next :
      {jobs after : Jobs}
      → Reach max_concurrency jobs
      → Step max_concurrency jobs after
      → Reach max_concurrency after
