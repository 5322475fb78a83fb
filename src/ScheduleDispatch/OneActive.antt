-- ===== src/ScheduleDispatch/OneActive.antt =====
-- The tasks of a schedule: backend/app/services/task_schedules.py and
-- backend/app/api/routes/task_schedules.py, together with what happens to a task's row meanwhile.
use mathlib.Core.Path.{subst}
use agent_demo.Prelude.{
  ℕ, ◌≤◌, ◌≡◌, refl, ap, arith, inl, inr, String, Option, none, some, List, [], ◌∷◌, ◌++◌,
  Bool-cases, Option-cases, ltb, ◌-◌,
}
use agent_demo.Outcome.{Result, ok, err}
use agent_demo.Task.{Task, Time, seconds}
use agent_demo.Lifecycle.Statuses.{Moves}
use agent_demo.Schedules.{Zones, next_run_after_occurrence}
use agent_demo.ScheduleDispatch.{
  ScheduleRow, aware, moved, active_schedule_task, build_scheduled_task, Dispatched, touched,
  dispatch_at, dispatch_next, dispatch_found, dispatch_schedule, latest_due_occurrence,
  run_or_return, run_task_schedule_now,
}
use agent_demo.ScheduleDispatch.ActiveTasks.{
  one_if, active_count, active_count-append, AtMostOne, added_task, changed_active, changed_count,
  unscheduled_idle,
}

module _ (print_id : ℕ → String) (isoformat : Time → String) where
  -- What can happen to the tasks: a tick dispatches a schedule, a user runs one at once, a task's row
  -- changes by one of its transactions, or a task of no schedule is made.
  pub data Change (zones : Zones) (tasks : List Task) : List Task → Type 0 where
    dispatched :
        (now fresh : ℕ) (row : ScheduleRow) (done : Dispatched print_id isoformat)
        → dispatch_schedule print_id isoformat zones now fresh row tasks ≡ some done
        → Change zones tasks done.tasks
    run_now :
        (now fresh : ℕ) (random_key : String) (row after : ScheduleRow) (more : List Task)
        (task : Task)
        → run_task_schedule_now print_id isoformat now fresh random_key (some row) tasks
          ≡ ok (after, more, task)
        → Change zones tasks more
    changed :
        (before after : List Task) (old new : Task)
        → tasks ≡ before ++ old ∷ after
        → old.schedule_id ≡ new.schedule_id
        → Moves old.status new.status
        → Change zones tasks (before ++ new ∷ after)
    unscheduled : (task : Task) → task.schedule_id ≡ none → Change zones tasks (tasks ++ task ∷ [])

  pub data Changes (zones : Zones) (tasks : List Task) : List Task → Type 0 where
    unchanged : Changes zones tasks tasks
    then_change :
        {more last : List Task}
        → Changes zones tasks more
        → Change zones more last
        → Changes zones tasks last

  dispatch_at_keeps :
      (now occurrence fresh : ℕ) (row : ScheduleRow) (tasks : List Task)
      → AtMostOne tasks
      → AtMostOne (dispatch_at print_id isoformat now occurrence fresh row tasks).tasks
  unfolding dispatch_at build_scheduled_task
  dispatch_at_keeps now occurrence fresh row tasks h =
      elim (Bool-cases (ltb (seconds row.misfire_grace_seconds) (now - occurrence))) [
        | inl e ↦ rw e h
        | inr e ↦ elim (Option-cases (active_schedule_task row.id tasks)) [
          | inr (task, f) ↦ rw (e, f) h
          | inl f ↦
              rw (e, f)
                (added_task row.id tasks
                  (build_scheduled_task print_id isoformat row occurrence fresh none) h refl f)
        ]
      ]

  dispatch_next_keeps :
      (now occurrence fresh : ℕ) (row : ScheduleRow) (tasks : List Task)
      (next : Result (Option Time))
      → AtMostOne tasks
      → AtMostOne (dispatch_next print_id isoformat now fresh row tasks occurrence next).tasks
  unfolding dispatch_next dispatch_at
  dispatch_next_keeps now occurrence fresh row tasks (err error) h = h
  dispatch_next_keeps now occurrence fresh row tasks (ok next) h =
      dispatch_at_keeps now occurrence fresh (moved print_id isoformat row next) tasks h

  kept_by :
      (made done : Dispatched print_id isoformat)
      → AtMostOne made.tasks
      → Path (Option (Dispatched print_id isoformat)) (some made) (some done)
      → AtMostOne done.tasks
  kept_by made done h e =
      let same : made ≡ done = grind (arith, e) in
      subst (λ (d : Dispatched print_id isoformat). AtMostOne d.tasks) same h

  dispatch_found_keeps :
      (zones : Zones) (now fresh : ℕ) (row : ScheduleRow) (tasks : List Task)
      (found : Result (Option Time)) (done : Dispatched print_id isoformat)
      → AtMostOne tasks
      → dispatch_found print_id isoformat zones now fresh row tasks found ≡ some done
      → AtMostOne done.tasks
  unfolding dispatch_found
  dispatch_found_keeps zones now fresh row tasks (err error) done h e = kept_by _ done h e
  dispatch_found_keeps zones now fresh row tasks (ok none) done h e = absurd (grind (arith, e))
  dispatch_found_keeps zones now fresh row tasks (ok (some occurrence)) done h e =
      let next = next_run_after_occurrence zones row.timing (aware now) in
      kept_by (dispatch_next print_id isoformat now fresh row tasks occurrence next) done
        (dispatch_next_keeps now occurrence fresh row tasks next h) e

  run_keeps :
      (now fresh : ℕ) (random_key : String) (row : ScheduleRow) (tasks : List Task)
      → AtMostOne tasks
      → AtMostOne
          (run_or_return print_id isoformat now fresh random_key row tasks
            (active_schedule_task row.id tasks)).1
  unfolding run_or_return build_scheduled_task
  run_keeps now fresh random_key row tasks h =
      elim (Option-cases (active_schedule_task row.id tasks)) [
        | inr (task, f) ↦ rw f h
        | inl f ↦ rw f (
            added_task row.id tasks
              (build_scheduled_task print_id isoformat row now fresh (some random_key)) h refl f)
      ]

  run_task_schedule_now_keeps :
      (now fresh : ℕ) (random_key : String) (row after : ScheduleRow) (tasks more : List Task)
      (task : Task)
      → AtMostOne tasks
      → run_task_schedule_now print_id isoformat now fresh random_key (some row) tasks
        ≡ ok (after, more, task)
      → AtMostOne more
  unfolding run_task_schedule_now
  run_task_schedule_now_keeps now fresh random_key row after tasks more task h e =
      let made =
        run_or_return print_id isoformat now fresh random_key row tasks
          (active_schedule_task row.id tasks) in
      let same : made ≡ (after, more, task) = grind (arith, e) in
      subst (λ (r : ScheduleRow × List Task × Task). AtMostOne r.1) same
        (run_keeps now fresh random_key row tasks h)

  Change-AtMostOne :
      (zones : Zones) (tasks more : List Task)
      → AtMostOne tasks
      → Change zones tasks more
      → AtMostOne more
  unfolding dispatch_schedule
  Change-AtMostOne zones tasks _ h (dispatched now fresh row done e) =
      dispatch_found_keeps zones now fresh (touched print_id isoformat row now) tasks
        (latest_due_occurrence zones row.timing now) done h e
  Change-AtMostOne zones tasks _ h (run_now now fresh random_key row after more task e) =
      run_task_schedule_now_keeps now fresh random_key row after tasks more task h e
  Change-AtMostOne zones tasks _ h (changed before after old new e s m) = λ id. omega (
    arith,
    changed_count id before after old new (changed_active id old new s m),
    subst (λ (ts : List Task). active_count id ts ≤ 1) e (h id),
  )
  Change-AtMostOne zones tasks _ h (unscheduled task s) = λ id. omega (
    arith,
    h id,
    active_count-append id tasks (task ∷ []),
    ap one_if (unscheduled_idle id task s),
  )

  -- A schedule never has two tasks that wait or run: where each schedule has at most one, that holds
  -- after any sequence of dispatches, manual runs, changes of a task's row as its transactions make
  -- them, and new tasks of no schedule.
  pub Changes-AtMostOne :
      (zones : Zones) (tasks more : List Task)
      → AtMostOne tasks
      → Changes zones tasks more
      → AtMostOne more
  Changes-AtMostOne zones tasks _ h unchanged = h
  Changes-AtMostOne zones tasks _ h (then_change {more = more} changes change) =
      Change-AtMostOne zones more _ (Changes-AtMostOne zones tasks more h changes) change
