-- ===== src/Runner/Settling.antt =====
-- How a failed attempt ends: another attempt inside the budget and the deadline, or failure.
use agent_demo.Prelude.{
  ℕ, suc, ◌+◌, ◌*◌, ◌-◌, ◌^◌, ◌≤◌, ◌≡◌, ap, String, Bool, true, Option, some, none, is_some, min,
  arith, not, ◌&&◌, ltb, if◌then◌else◌,
}
use native.Mathlib.Nat.{pow-suc}
use agent_demo.Task.{Task, Time, queued, failed, passed}
use agent_demo.Runner.{Config, settle, requeue, finish_failed, retry_delay}

-- The conditions for a retry at `retry_at`.
abbrev pub retries : Time → Task → Bool → Bool
retries retry_at task retryable =
    not (is_some task.replay_blocked_at)
    && not (passed task.deadline_at retry_at)
    && retryable
    && ltb task.attempt_count task.max_attempts

-- The row of a settled attempt, for the retry time that was chosen, if any.
pub record Settles (retry : Option Time) (after : Task) : Type 0 where
  pub status_set : after.status ≡ (if is_some retry then queued else failed)
  pub retry_set : after.next_attempt_at ≡ retry
  pub token_cleared : after.run_token ≡ none
  pub lease_cleared : after.lease_expires_at ≡ none
  pub end_set : is_some after.finished_at ≡ not (is_some retry)
  pub error_set : is_some after.error ≡ true

-- A failed attempt is queued again at `now + jitter` exactly when replay is not blocked, that time
-- is before the deadline, the error is retryable and attempts are left. Otherwise the task fails.
-- Either way the row has no owner and no lease afterwards, and carries an error.
pub settle_exact :
    (now ended jitter : ℕ) (task : Task) (error : String) (retryable : Bool)
    → let (outcome, after) = settle now ended jitter task error retryable in
      (outcome.retry_at
        ≡ (if retries (now + jitter) task retryable then some (now + jitter) else none))
      × Settles outcome.retry_at after
unfolding settle requeue finish_failed
settle_exact now ended jitter task error retryable = (ground arith, ground arith)

doubled : (base n : ℕ) → min (base * 2 ^ suc n) 3600 ≡ min (2 * min (base * 2 ^ n) 3600) 3600
doubled base n = omega (arith, ap (λ (t : ℕ). base * t) (pow-suc 2 n))

pred_suc : (n : ℕ) → suc n - 1 ≡ n
pred_suc n = omega arith

-- The retry delay is never more than an hour, and it doubles with each further attempt until it
-- meets the hour.
pub retry_delay_backoff :
    (config : Config) (task : Task) (n : ℕ)
    → task.attempt_count ≡ suc n
    → (retry_delay config task ≤ 3600)
      × (retry_delay config (record task { attempt_count = suc (suc n) })
          ≡ min (2 * retry_delay config task) 3600)
unfolding retry_delay
retry_delay_backoff config task n h =
    rw h (omega arith, rw (pred_suc (suc n), pred_suc n) (doubled config.retry_base_seconds n))
