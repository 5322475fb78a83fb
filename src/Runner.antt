-- ===== src/Runner.antt =====
-- backend/app/services/agent_task_runner.py: the transactions that a background worker makes on its
-- task row, and what it collects from the runtime's events. Each transaction holds the row lock, so
-- it is a function of the row; `now` is what `datetime.now(UTC)` returns in it.
pub mod Events
pub mod Claiming
pub mod Settling
pub mod Outcomes
use agent_demo.Prelude.{
  ℕ, ◌+◌, ◌-◌, ◌*◌, ◌^◌, min, max, String, Bool, true, false, not, ◌&&◌, ◌||◌, Option, none, some,
  List, [], ◌∷◌, ◌++◌, ltb, leb, ◌==◌, str_eq, if◌then◌else◌, or_else, is_some, strip, cut, decimal,
  concat, take_last,
}
use agent_demo.Outcome.{Error, attribute_error, lease_lost, Result, ok, err, ◌>>=◌}
use agent_demo.Task.{
  Status, queued, running, succeeded, failed, Task, Metadata, TaskEvent, retry_scheduled,
  TaskResult, Time, seconds, same_status, is_agent, passed,
}
use agent_demo.Lease.{TaskLease, replay_blocked_error, lock_task_lease, require_task}

pub record Config : Type 0 where
  pub retry_base_seconds : ℕ
  pub lease_seconds : ℕ
  pub heartbeat_seconds : ℕ

-- `x or y` on an optional number: 0 counts as missing.
abbrev number_or : Option ℕ → ℕ → ℕ
number_or none d = d
number_or (some n) d = if n == 0 then d else n

-- `AgentTaskRunner.__init__`; `settings` holds the three defaults of the settings.
unfoldable pub runner_config : Option ℕ → Option ℕ → Option ℕ → Config → Config
runner_config base lease heartbeat settings = record {
  retry_base_seconds = max (number_or base settings.retry_base_seconds) 1;
  lease_seconds = max (number_or lease settings.lease_seconds) 5;
  heartbeat_seconds = max (number_or heartbeat settings.heartbeat_seconds) 1;
}

abbrev pub max_task_events : ℕ
max_task_events = 100

pub record TaskRunOutcome : Type 0 where
  pub retry_at : Option Time

abbrev no_retry : TaskRunOutcome
no_retry = record { retry_at = none }

unfoldable pub finish_failed : Time → Task → String → Task
finish_failed now task error = record task {
  status = failed;
  error = some (if str_eq error "" then "Background agent task failed" else error);
  finished_at = some now;
  next_attempt_at = none;
  lease_expires_at = none;
  run_token = none;
}

-- What a worker holds when it has claimed a task; the timeout is in microseconds.
pub record Job : Type 0 where
  pub lease : TaskLease
  pub conversation_id : ℕ
  pub user_id : Option ℕ
  pub prompt : String
  pub timeout : ℕ

-- `declined`: `run` returns at once. `started`: the attempt begins.
pub data Claim : Type 0 where
  declined : TaskRunOutcome → Claim
  started : Job → Claim

abbrev pub prompt_of : Task → String
prompt_of task = strip (or_else task.prompt "")

-- The `if prompt … elif …` ladder that refuses a task for good.
unfoldable pub claim_error : Time → Task → Option String
claim_error now task =
    if str_eq (prompt_of task) ""
    then some "Agent task input did not include a prompt"
    else if passed task.deadline_at now
    then some "Task deadline expired before execution"
    else if leb task.max_attempts task.attempt_count
    then some "Task attempt budget exhausted"
    else if is_some task.replay_blocked_at
    then some replay_blocked_error
    else none

-- `next_attempt_at is not None and next_attempt_at > now`
abbrev pub not_yet_due : Option Time → Time → Bool
not_yet_due none now = false
not_yet_due (some at) now = ltb now at

-- The row as `run` commits it before the attempt starts. `token` and `fresh` are the two `uuid4()`
-- calls; `fresh` is the id of the conversation that is created where the task has none.
unfoldable pub start_attempt : Config → Time → ℕ → ℕ → Task → Task
start_attempt config now token fresh task =
    let deadline = or_else task.deadline_at (now + seconds 900) in
    record task {
      conversation_id = some (or_else task.conversation_id fresh);
      status = running;
      progress = 1;
      error = none;
      attempt_count = task.attempt_count + 1;
      next_attempt_at = none;
      heartbeat_at = some now;
      lease_expires_at = some (min (now + seconds config.lease_seconds) deadline);
      run_token = some token;
      deadline_at = some deadline;
      started_at = some (or_else task.started_at now);
      finished_at = none;
    }

unfoldable pub job_of : Time → ℕ → Task → ℕ → Job
job_of now token task fresh = record {
  lease = record { task_id = task.id; token = token };
  conversation_id = or_else task.conversation_id fresh;
  user_id = task.user_id;
  prompt = prompt_of task;
  timeout = min (seconds task.timeout_seconds) (or_else task.deadline_at (now + seconds 900) - now);
}

-- A refused task is failed, and a task that is not due is left alone.
claim_due : Config → Time → ℕ → ℕ → Task → Option String → Claim × Task
claim_due config now token fresh task (some error) =
    (declined no_retry, finish_failed now task error)
claim_due config now token fresh task none =
    if not_yet_due task.next_attempt_at now
    then (declined (record { retry_at = task.next_attempt_at }), task)
    else (started (job_of now token task fresh), start_attempt config now token fresh task)

-- The first transaction of `run`, on the row that its `skip_locked` read returned.
unfoldable pub claim : Config → Time → ℕ → ℕ → Task → Claim × Task
unfolding claim_due
claim config now token fresh task =
    if not (is_agent task.kind) || not (same_status task.status queued)
    then (declined no_retry, task)
    else claim_due config now token fresh task (claim_error now task)

-- The retry delay in seconds; `attempt_count - 1` stops at 0, as `max(…, 0)` does.
unfoldable pub retry_delay : Config → Task → ℕ
retry_delay config task = min (config.retry_base_seconds * 2 ^ (task.attempt_count - 1)) 3600

unfoldable pub retry_event : Time → Time → Task → String → TaskEvent
retry_event now retry_at task error =
    retry_scheduled now task.attempt_count retry_at (cut 2000 error)

-- The branch of `_finish_or_retry` that queues the task again.
unfoldable pub requeue : Time → Time → Task → String → Task
requeue now retry_at task error = record task {
  status = queued;
  error = some (
      concat (
        "Attempt "
        ∷ decimal task.attempt_count
        ∷ "/"
        ∷ decimal task.max_attempts
        ∷ " failed; retry scheduled: "
        ∷ error
        ∷ []));
  finished_at = none;
  next_attempt_at = some retry_at;
  lease_expires_at = none;
  run_token = none;
  metadata = record (task.metadata) {
    events =
        take_last max_task_events
          (task.metadata.events ++ retry_event now retry_at task error ∷ []);
  };
}

-- `_finish_or_retry` behind its lock. `jitter` is the result of `uniform(delay / 2, delay)`, in
-- microseconds; `ended` is the later `datetime.now(UTC)` of `_finish_failed`.
unfoldable pub settle : Time → Time → ℕ → Task → String → Bool → TaskRunOutcome × Task
settle now ended jitter task error retryable =
    let retry_at = now + jitter in
    if is_some task.replay_blocked_at
    then (no_retry, finish_failed ended task (concat (error ∷ " " ∷ replay_blocked_error ∷ [])))
    else if passed task.deadline_at retry_at
    then (no_retry, finish_failed ended task (concat ("Task deadline exhausted: " ∷ error ∷ [])))
    else if retryable && ltb task.attempt_count task.max_attempts
    then (record { retry_at = some retry_at }, requeue now retry_at task error)
    else (no_retry, finish_failed ended task error)

unfoldable pub finish_or_retry :
    Option TaskLease
    → Time
    → Time
    → ℕ
    → Option Task
    → String
    → Bool
    → Result (TaskRunOutcome × Task)
finish_or_retry lease now ended jitter row error retryable = do
  held ← lock_task_lease false lease now row
  task ← require_task held
  ok (settle now ended jitter task error retryable)

-- The last transaction of a run that ended with a completion event; `trace_id` and `answer` are what
-- the events carried.
unfoldable pub complete : Time → Task → Option String → TaskResult → Task
complete now task trace_id answer = record task {
  status = succeeded;
  progress = 100;
  task_result = some answer;
  trace_id = trace_id;
  lease_expires_at = none;
  run_token = none;
  finished_at = some now;
}

-- `str(done.get("trace_id") or task.trace_id or "") or None`
abbrev pub trace_or : Option String → Option String → Option String
trace_or (some t) saved = some t
trace_or none none = none
trace_or none (some t) = if str_eq t "" then none else some t

unfoldable pub succeed :
    Option TaskLease → Time → Time → Option Task → Option String → TaskResult → Result Task
unfolding complete
succeed lease now ended row trace_id answer = do
  held ← lock_task_lease true lease now row
  task ← require_task held
  ok (complete ended task (trace_or trace_id task.trace_id) answer)

-- One round of `_heartbeat_loop`. A missing deadline raises in `min`; a claim has set one.
unfoldable pub extend_lease : Config → Time → Task → Option Time → Result Task
extend_lease config now task none = err attribute_error
extend_lease config now task (some deadline) = ok (record task {
  heartbeat_at = some now;
  lease_expires_at = some (min (now + seconds config.lease_seconds) deadline);
})

unfoldable pub heartbeat : Config → Option TaskLease → Time → Time → Option Task → Result Task
unfolding extend_lease
heartbeat config lease now beat row = do
  held ← lock_task_lease true lease now row
  task ← require_task held
  extend_lease config beat task task.deadline_at
