-- ===== src/Runner/Claiming.antt =====
-- When a worker gets a task, and what it then owns.
use agent_demo.Prelude.{
  inl, inr, Option-cases, ℕ, ◌+◌, ◌≤◌, ◌<◌, ◌≡◌, ◌↔◌, refl, sym, ◌∙◌, true, false, Option, some,
  none, is_some, min, arith, str_eq,
}
use mathlib.Core.Path.{subst}
use agent_demo.Outcome.{ok}
use agent_demo.Task.{Task, Time, agent, queued, passed, seconds}
use agent_demo.Lease.{TaskLease, lock_task_lease, fenced_off}
use agent_demo.Lease.Owner.{Owns}
use agent_demo.Runner.{
  Config, Claim, Job, started, declined, claim, claim_error, start_attempt, prompt_of, not_yet_due,
  job_of, heartbeat, extend_lease,
}

-- The conditions for an attempt.
pub record IsReady (now : Time) (task : Task) : Type 0 where
  pub for_worker : task.kind ≡ agent
  pub waiting : task.status ≡ queued
  pub has_prompt : str_eq (prompt_of task) "" ≡ false
  pub in_time : passed task.deadline_at now ≡ false
  pub attempts_left : task.attempt_count < task.max_attempts
  pub not_blocked : task.replay_blocked_at ≡ none
  pub due : not_yet_due task.next_attempt_at now ≡ false

-- What a granted claim hands over: the row `after` belongs to the job's lease, and both the lease
-- and the attempt's time end by the deadline.
pub record Grants (config : Config) (now token : ℕ) (job : Job) (after : Task) : Type 0 where
  pub names_task : job.lease.task_id ≡ after.id
  pub names_token : job.lease.token ≡ token
  pub owner : Owns job.lease after
  pub leased_until :
      (until : Time) × (after.lease_expires_at ≡ some until)
      × (now < until)
      × (until ≤ now + seconds config.lease_seconds)
  pub deadline : (d : Time) × (after.deadline_at ≡ some d) × (now + job.timeout ≤ d)
  pub conversation : after.conversation_id ≡ some job.conversation_id

abbrev Granted : Config → Time → ℕ → Claim × Task → Type 0
Granted config now token (declined outcome, after) = Unit
Granted config now token (started job, after) = Grants config now token job after

abbrev pub granted : Claim → Option Job
granted (declined outcome) = none
granted (started job) = some job

module _ (config : Config) (now token fresh : ℕ) (task : Task) where
  ready_claim :
      IsReady now task
      → claim config now token fresh task
        ≡ (started (job_of now token task fresh), start_attempt config now token fresh task)
  unfolding claim claim_error
  ready_claim r = ground arith

  -- A worker is granted a task exactly when it is an agent task that waits in the queue, is due,
  -- has a prompt, time before its deadline, attempts left and no mark against replay.
  pub claim-granted_iff :
      (is_some (granted (claim config now token fresh task).0) ≡ true) ↔ IsReady now task
  unfolding claim claim_error
  claim-granted_iff = (λ h. ground arith, λ r. ground arith)

  granted_time : (d : Time) → passed (some d) now ≡ false → now < d
  granted_time d h = ground arith

  start_attempt-Grants :
      0 < config.lease_seconds
      → IsReady now task
      → Grants config now token
          (job_of now token task fresh)
          (start_attempt config now token fresh task)
  unfolding job_of start_attempt
  start_attempt-Grants pos r = elim (Option-cases task.deadline_at) [
    | inl e ↦ record {
      names_task = refl;
      names_token = refl;
      owner = record { is_running = refl; has_token = ground arith };
      leased_until = (
        min (now + seconds config.lease_seconds) (now + seconds 900),
        rw e,
        omega arith,
        omega arith,
      );
      deadline = (now + seconds 900, rw e, rw e (omega arith));
      conversation = refl;
    }
    | inr (d, e) ↦
        let before = granted_time d (rw e at r.in_time) in
        record {
          names_task = refl;
          names_token = refl;
          owner = record { is_running = refl; has_token = ground arith };
          leased_until =
              (min (now + seconds config.lease_seconds) d, rw e, omega arith, omega arith);
          deadline = (d, rw e, rw e (omega arith));
          conversation = refl;
        }
  ]

  -- A worker that is granted a task owns the row it committed under the token it drew: its lease
  -- ends after now and within the lease time, and the attempt's timeout ends by the deadline.
  pub claim-Grants :
      (job : Job) (after : Task)
      → 0 < config.lease_seconds
      → claim config now token fresh task ≡ (started job, after)
      → Grants config now token job after
  claim-Grants job after pos h =
      let r = claim-granted_iff.0 (rw h) in
      subst (Granted config now token) (sym (ready_claim r) ∙ h) (start_attempt-Grants pos r)

-- A worker whose heartbeat comes before its lease and its deadline run out keeps the row, and its
-- lease is moved to the lease time from then or to the deadline.
pub heartbeat_keeps :
    (config : Config) (lease : TaskLease) (now until deadline : Time) (task : Task)
    → Owns lease task
    → task.lease_expires_at ≡ some until
    → task.deadline_at ≡ some deadline
    → now < until
    → now < deadline
    → (after : Task) × (heartbeat config (some lease) now now (some task) ≡ ok after)
      × Owns lease after
      × (after.lease_expires_at ≡ some (min (now + seconds config.lease_seconds) deadline))
unfolding heartbeat extend_lease lock_task_lease fenced_off
heartbeat_keeps config lease now until deadline task o l d before in_time = (
  record task {
    heartbeat_at = some now;
    lease_expires_at = some (min (now + seconds config.lease_seconds) deadline);
  },
  ground arith,
  ground arith,
  ground arith,
)
