-- ===== src/Examples/Worker.antt =====
-- The worker's theorems on one task.
use agent_demo.Prelude.{
  ◌+◌, ◌≡◌, ◌↔◌, refl, arith, true, none, some, is_some, [], ◌∷◌, max, if◌then◌else◌, strip,
}
use agent_demo.Task.{Task, manual, seconds}
use agent_demo.Lease.{lock_task_lease}
use agent_demo.Runner.{Job, started, claim, claim_error, job_of, start_attempt, settle}
use agent_demo.Runner.Claiming.{IsReady, Grants, granted, claim-granted_iff, claim-Grants}
use agent_demo.Runner.Settling.{retries, Settles, settle_exact}
use agent_demo.Recovery.{recover, is_abandoned, may_run_again}
use agent_demo.Recovery.Sweep.{recover-claim}
use agent_demo.SaveMessage.{ChatMessage, save_message}
use agent_demo.SaveMessage.Once.{copies, save_message_once}
use agent_demo.Examples.{config, waiting_task, running_task, lease}

claim-granted_iff_example :
    (is_some (granted (claim config 5 7 11 waiting_task).0) ≡ true) ↔ IsReady 5 waiting_task
claim-granted_iff_example = claim-granted_iff config 5 7 11 waiting_task

claim-Grants_example :
    Grants config 5 7 (job_of 5 7 waiting_task 11) (start_attempt config 5 7 11 waiting_task)
unfolding claim claim_error strip
claim-Grants_example =
    claim-Grants config 5 7 11 waiting_task (job_of 5 7 waiting_task 11)
      (start_attempt config 5 7 11 waiting_task) (omega arith) refl

settle_exact_example :
    let (outcome, after) = settle 5 6 2 running_task "timeout" true in
    (outcome.retry_at ≡ (if retries (5 + 2) running_task true then some (5 + 2) else none))
    × Settles outcome.retry_at after
settle_exact_example = settle_exact 5 6 2 running_task "timeout" true

recover-claim_example :
    (job : Job) × ((claim config (seconds 50) 8 11 (recover (seconds 50) running_task)).0
      ≡ started job)
    × (job.lease.token ≡ 8)
unfolding is_abandoned may_run_again strip
recover-claim_example =
    recover-claim config (seconds 50) 8 11 running_task refl refl (omega arith) refl

abbrev manual_task : Task
manual_task = record waiting_task { kind = manual }

abbrev draft : ChatMessage
draft = record {
  conversation_id = 9;
  role = "assistant";
  content = "Done";
  model_name = none;
  agent_task = none;
}

abbrev saved_message : ChatMessage
saved_message = record draft { agent_task = some 1 }

-- A second save by a retried attempt.
save_message_once_example :
    copies 9 "assistant" 1 (saved_message ∷ [])
    ≡ max (copies 9 "assistant" 1 (saved_message ∷ [])) 1
unfolding save_message lock_task_lease
save_message_once_example =
    save_message_once lease (seconds 20) (seconds 21) draft running_task (saved_message ∷ [])
      (record { messages = saved_message ∷ []; task_row = some running_task }) refl
