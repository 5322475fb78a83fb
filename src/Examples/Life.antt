-- ===== src/Examples/Life.antt =====
-- A task whose first worker was lost: its lease ran out, recovery queued it again, and a second worker
-- claimed it with token 8.
use agent_demo.Prelude.{◌+◌, ◌≤◌, ◌≡◌, inl, refl, arith, true, none, some, is_some, [], ◌∷◌}
use agent_demo.Json.{end}
use agent_demo.Outcome.{ok, err}
use agent_demo.Task.{Task, Status, seconds, is_valid_task_status_transition}
use agent_demo.Lease.{no_live_lease, block_replay}
use agent_demo.Runner.{finish_or_retry, succeed, heartbeat, claim}
use agent_demo.Runner.Events.{record_event}
use agent_demo.Recovery.{is_abandoned, recover}
use agent_demo.TaskRoutes.{cancel_task, apply_task_status_timestamps}
use agent_demo.Dispatch.{dispatch_reason, mark_dispatch}
use agent_demo.SaveMessage.{ChatMessage, save_message}
use agent_demo.Lifecycle.{World, Step, Reach, claimed, recovered, cancelled as cancels, here, next}
use agent_demo.Lifecycle.Invariant.{IsSound, Reach-IsSound}
use agent_demo.Lifecycle.Fencing.{IsSpent, stale_worker_fenced}
use agent_demo.Lifecycle.Replay.{starts, attempts_bounded, no_replay_after_dispatch}
use agent_demo.Lifecycle.Statuses.{MovesBy, queues_again, Step-Moves, terminal_absorbs}
use agent_demo.Examples.{config, container, waiting_task, running_task, lease}

abbrev lost : World
lost = record { row = running_task; issued = 7 ∷ [] }

abbrev requeued : World
requeued = record { row = recover (seconds 50) running_task; issued = 7 ∷ [] }

abbrev taken : World
taken = record {
  row = (claim config (seconds 60) 8 11 (recover (seconds 50) running_task)).1;
  issued = 8 ∷ 7 ∷ [];
}

recovery : Step config container lost requeued
unfolding is_abandoned
recovery = recovered (seconds 50) refl

second_claim : Step config container requeued taken
second_claim = claimed (seconds 60) 8 11 (omega arith, tt)

abbrev history : Reach config container lost taken
history = next (next here recovery) second_claim

abbrev after_recovery : Reach config container requeued taken
after_recovery = next here second_claim

spent : IsSpent 7 requeued
unfolding recover
spent = record { drawn = inl refl; gone = refl }

abbrev draft : ChatMessage
draft = record {
  conversation_id = 9;
  role = "assistant";
  content = "Late answer";
  model_name = none;
  agent_task = none;
}

stale_worker_fenced_example :
    (record_event container (some lease) 61 62 "status" end (some taken.row) ≡ err no_live_lease)
    × (heartbeat config (some lease) 61 62 (some taken.row) ≡ err no_live_lease)
    × (mark_dispatch (some 1) (some lease) 61 62 "write_file" (some taken.row) none
        ≡ err no_live_lease)
    × (save_message (some lease) 61 62 draft (some taken.row) [] ≡ err no_live_lease)
    × (finish_or_retry (some lease) 61 62 3 (some taken.row) "timeout" true ≡ err no_live_lease)
    × (succeed
          (some lease)
          61
          62
          (some taken.row)
          none
          (record { answer = "Late answer"; result_conversation = some 9 })
        ≡ err no_live_lease)
stale_worker_fenced_example =
    stale_worker_fenced config container lease requeued taken after_recovery spent 61 62 3 "status"
      end 1 "write_file" none draft [] "timeout" true none
      (record { answer = "Late answer"; result_conversation = some 9 })

sound : IsSound running_task
sound = record {
  owned = refl;
  leased = refl;
  within = omega arith;
  budget = omega arith;
  progressed = omega arith;
  recent = refl;
  ended = refl;
}

attempts_bounded_example :
    (running_task.attempt_count + starts history ≤ running_task.max_attempts)
    × (taken.row.attempt_count ≡ running_task.attempt_count + starts history)
attempts_bounded_example = attempts_bounded config container lost taken history sound

Reach-IsSound_example : IsSound taken.row
Reach-IsSound_example = Reach-IsSound config container lost taken history sound

abbrev marked_task : Task
marked_task = block_replay (seconds 20) (dispatch_reason "write_file") running_task

abbrev marked : World
marked = record { row = marked_task; issued = 7 ∷ [] }

abbrev given_up : World
given_up = record { row = recover (seconds 50) marked_task; issued = 7 ∷ [] }

abandoned : is_abandoned (seconds 50) marked_task ≡ true
unfolding is_abandoned block_replay
abandoned = refl

abbrev blocked : Reach config container marked given_up
blocked = next here (recovered (seconds 50) abandoned)

no_replay_after_dispatch_example :
    (starts blocked ≡ 0) × (is_some given_up.row.replay_blocked_at ≡ true)
unfolding block_replay
no_replay_after_dispatch_example =
    no_replay_after_dispatch config container marked given_up blocked refl

Step-Moves_example : MovesBy (queues_again recovery) lost.row.status requeued.row.status
Step-Moves_example = Step-Moves config container lost requeued recovery

abbrev stopped : World
stopped = record {
  row = record waiting_task { status = Status.cancelled; finished_at = some 5 };
  issued = [];
}

cancelled_again : cancel_task 9 (some stopped.row) ≡ ok stopped.row
unfolding cancel_task is_valid_task_status_transition apply_task_status_timestamps
cancelled_again = refl

terminal_absorbs_example : stopped.row.status ≡ stopped.row.status
terminal_absorbs_example =
    terminal_absorbs config container stopped stopped
      (next here (cancels 9 stopped.row cancelled_again)) refl
