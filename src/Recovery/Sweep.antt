-- ===== src/Recovery/Sweep.antt =====
-- What one recovery pass does to the rows that it selected.
use agent_demo.Prelude.{
  ℕ, ◌<◌, ◌≡◌, refl, Bool, true, false, List, [], ◌∷◌, map, arith, length, if◌then◌else◌, str_eq,
}
use agent_demo.Task.{Task, Time}
use agent_demo.Recovery.{is_abandoned, may_run_again, recover, recover_stale_running_tasks}
use agent_demo.Runner.{Config, Job, started, claim, claim_error, job_of, prompt_of}

abbrev pub all_abandoned : Time → List Task → Bool
all_abandoned now [] = true
all_abandoned now (t ∷ ts) = if is_abandoned now t then all_abandoned now ts else false

-- Where every selected row is abandoned, the pass recovers each of them, in order, and counts them
-- all: the second look at the lease inside the loop skips none.
pub recover_stale_running_tasks-eq-map :
    (now : Time) (tasks : List Task)
    → all_abandoned now tasks ≡ true
    → recover_stale_running_tasks now tasks ≡ (map (recover now) tasks, length tasks)
unfolding recover_stale_running_tasks is_abandoned
recover_stale_running_tasks-eq-map now [] h = refl
recover_stale_running_tasks-eq-map now (t ∷ ts) h =
    ground (arith, recover_stale_running_tasks-eq-map now ts)

-- An abandoned task with attempts left, no mark against replay, a deadline ahead and a prompt is
-- claimed by the next worker at once: the recovered row is granted to it.
pub recover-claim :
    (config : Config) (now token fresh : ℕ) (task : Task)
    → is_abandoned now task ≡ true
    → may_run_again now task ≡ true
    → 0 < task.attempt_count
    → str_eq (prompt_of task) "" ≡ false
    → (job : Job) × ((claim config now token fresh (recover now task)).0 ≡ started job)
      × (job.lease.token ≡ token)
unfolding claim claim_error recover may_run_again is_abandoned job_of
recover-claim config now token fresh task a m p q =
    (job_of now token (recover now task) fresh, ground arith, refl)
