-- ===== src/Examples.antt =====
-- Concrete rows, settings and requests, and the theorems applied to them.
mod Worker
mod Life
mod Approval
mod Tools
mod Access
mod Context
mod Pool
mod Calendar
mod Arguments
mod Repeated
mod Chunks
mod Stream
mod Vectors
mod SignIn
mod Ticks
mod Rounds
mod Servers
mod Discovery
use agent_demo.Prelude.{ℕ, String, Bool, true, false, Option, none, some, List, [], ◌∷◌}
use agent_demo.Json.{Json, null, text, Fields, end, field}
use agent_demo.Task.{Task, agent, manual, queued, running, succeeded, seconds}
use agent_demo.Lease.{TaskLease}
use agent_demo.Runner.{Config}

abbrev pub config : Config
config = record { retry_base_seconds = 5; lease_seconds = 30; heartbeat_seconds = 10 }

abbrev pub container : Json → String
container j = "[...]"

abbrev pub waiting_task : Task
waiting_task = record {
  id = 1;
  user_id = some 4;
  conversation_id = some 9;
  schedule_id = none;
  name = "report";
  kind = agent;
  prompt = some "Write the weekly report";
  status = queued;
  progress = 0;
  error = none;
  task_result = none;
  trace_id = none;
  idempotency_key = none;
  attempt_count = 0;
  max_attempts = 3;
  next_attempt_at = none;
  heartbeat_at = none;
  lease_expires_at = none;
  run_token = none;
  timeout_seconds = 180;
  deadline_at = none;
  replay_blocked_at = none;
  replay_blocked_reason = none;
  metadata = record {
    events = [];
    request_fingerprint = none;
    scheduled_for = none;
    dispatched_manually = false;
  };
  started_at = none;
  finished_at = none;
}

abbrev pub lease : TaskLease
lease = record { task_id = 1; token = 7 }

-- The row while the holder of `lease` works on it.
abbrev pub running_task : Task
running_task = record waiting_task {
  status = running;
  progress = 1;
  attempt_count = 1;
  run_token = some 7;
  lease_expires_at = some (seconds 40);
  deadline_at = some (seconds 900);
}
