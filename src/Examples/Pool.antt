-- ===== src/Examples/Pool.antt =====
-- A pool of two workers whose first job has ended before its callback ran.
use agent_demo.Prelude.{[]}
use agent_demo.JobPool.{enqueue, end_job, empty, next, enqueued, ended}
use agent_demo.JobPool.Bounds.{IsBounded, Reach-IsBounded}

Reach-IsBounded_example : IsBounded 2 (end_job 10 (enqueue 2 3 10 []).1)
Reach-IsBounded_example =
    Reach-IsBounded 2 (end_job 10 (enqueue 2 3 10 []).1)
      (next (next empty (enqueued 3 10)) (ended 10))
