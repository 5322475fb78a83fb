-- ===== src/Lease/Owner.antt =====
-- What a granted lock says of the row, and when a lock is refused.
use agent_demo.Prelude.{◌≡◌, Bool, true, false, Option, some, arith, Bool-cases, inl, inr, ◌⊎◌}
use agent_demo.Outcome.{ok, err}
use agent_demo.Task.{Task, Time, running, holds}
use agent_demo.Lease.{TaskLease, fenced_off, lock_task_lease, no_live_lease}

-- The row belongs to the holder of the lease.
pub record Owns (lease : TaskLease) (task : Task) : Type 0 where
  pub is_running : task.status ≡ running
  pub has_token : holds task.run_token lease.token ≡ true

pub lock-Owns :
    (live : Bool) (lease : TaskLease) (now : Time) (task : Task) {held : Option Task}
    → lock_task_lease live (some lease) now (some task) ≡ ok held
    → Owns lease task
unfolding lock_task_lease fenced_off
lock-Owns live lease now task h = ground arith

pub lock-held :
    (live : Bool) (lease : TaskLease) (now : Time) (task : Task) {held : Option Task}
    → lock_task_lease live (some lease) now (some task) ≡ ok held
    → held ≡ some task
unfolding lock_task_lease
lock-held live lease now task h = ground arith

-- A holder whose token is not the row's is refused, whatever the time.
pub lock_lost :
    (live : Bool) (lease : TaskLease) (now : Time) (task : Task)
    → holds task.run_token lease.token ≡ false
    → lock_task_lease live (some lease) now (some task) ≡ err no_live_lease
unfolding lock_task_lease fenced_off
lock_lost live lease now task h = ground arith

-- A lock on an existing row is refused, or it is granted to the row's owner and returns the row.
pub lock-cases :
    (live : Bool) (lease : TaskLease) (now : Time) (task : Task)
    → (lock_task_lease live (some lease) now (some task) ≡ err no_live_lease)
      ⊎ (Owns lease task × (lock_task_lease live (some lease) now (some task) ≡ ok (some task)))
unfolding lock_task_lease fenced_off
lock-cases live lease now task = elim (Bool-cases (fenced_off live lease now task)) [
  | inl e ↦ inl (rw e)
  | inr e ↦ inr (record { is_running = ground arith; has_token = ground arith }, rw e)
]
