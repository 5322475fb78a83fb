-- ===== src/ScheduleDispatch/ActiveTasks.antt =====
-- The tasks of a schedule that wait or run, counted.
use mathlib.Core.Path.{subst}
use agent_demo.Prelude.{
  ℕ, ◌+◌, ◌≤◌, ◌≡◌, refl, ap, arith, inl, inr, Bool, true, false, ◌==◌, ==_iff, none, some, List,
  [], ◌∷◌, ◌++◌, Bool-cases,
}
use agent_demo.Task.{Task, Status, holds, is_valid_task_status_transition}
use agent_demo.Lifecycle.Statuses.{Moves}
use agent_demo.ScheduleDispatch.{waits_or_runs, is_active, active_schedule_task}

abbrev pub one_if : Bool → ℕ
one_if true = 1
one_if false = 0

-- How many tasks of a schedule wait or run.
abbrev pub active_count : ℕ → List Task → ℕ
active_count id [] = 0
active_count id (task ∷ tasks) = one_if (is_active id task) + active_count id tasks

pub active_count-append :
    (id : ℕ) (tasks more : List Task)
    → active_count id (tasks ++ more) ≡ active_count id tasks + active_count id more
active_count-append id [] more = omega arith
active_count-append id (task ∷ tasks) more = omega (arith, active_count-append id tasks more)

none_active :
    (id : ℕ) (tasks : List Task) → active_schedule_task id tasks ≡ none → active_count id tasks ≡ 0
unfolding active_schedule_task
none_active id [] h = refl
none_active id (task ∷ tasks) h = elim (Bool-cases (is_active id task)) [
  | inl e ↦ absurd (grind (arith, e, h))
  | inr e ↦ rw e (omega (arith, none_active id tasks (rw e at h)))
]

abbrev pub AtMostOne : List Task → Type 0
AtMostOne tasks = (id : ℕ) → active_count id tasks ≤ 1

at_most : (b : Bool) → one_if b ≤ 1
at_most true = omega arith
at_most false = omega arith

elsewhere :
    (id other : ℕ) (task : Task)
    → task.schedule_id ≡ some id
    → (id == other) ≡ false
    → is_active other task ≡ false
elsewhere id other task s differs = rw (s, differs) refl

pub added_task :
    (id : ℕ) (tasks : List Task) (task : Task)
    → AtMostOne tasks
    → task.schedule_id ≡ some id
    → active_schedule_task id tasks ≡ none
    → AtMostOne (tasks ++ task ∷ [])
added_task id tasks task h s e other =
    let added = active_count-append other tasks (task ∷ []) in
    elim (Bool-cases (id == other)) [
      | inl same ↦
          let unused : active_count other tasks ≡ 0 =
            subst (λ k. active_count k tasks ≡ 0) ((==_iff id other).0 same)
              (none_active id tasks e) in
          omega (arith, added, unused, at_most (is_active other task))
      | inr differs ↦
          let idle = ap one_if (elsewhere id other task s differs) in
          omega (arith, added, idle, h other)
    ]

reactivates_none :
    (before after : Status)
    → Moves before after
    → waits_or_runs after ≡ true
    → waits_or_runs before ≡ true
unfolding is_valid_task_status_transition
reactivates_none before after m h = ground arith

-- A task's row that changes as its transactions change it.
pub changed_active :
    (id : ℕ) (old new : Task)
    → old.schedule_id ≡ new.schedule_id
    → Moves old.status new.status
    → one_if (is_active id new) ≤ one_if (is_active id old)
changed_active id old new s m = elim (Bool-cases (waits_or_runs new.status)) [
  | inl e ↦ rw (e, reactivates_none old.status new.status m e, s) (omega arith)
  | inr e ↦ elim (Bool-cases (holds new.schedule_id id)) [
    | inl f ↦ rw (f, e) (omega arith)
    | inr f ↦ rw f (omega arith)
  ]
]

pub changed_count :
    (id : ℕ) (before after : List Task) (old new : Task)
    → one_if (is_active id new) ≤ one_if (is_active id old)
    → active_count id (before ++ new ∷ after) ≤ active_count id (before ++ old ∷ after)
changed_count id [] after old new h = omega (arith, h)
changed_count id (task ∷ before) after old new h =
    omega (arith, changed_count id before after old new h)

pub unscheduled_idle : (id : ℕ) (task : Task) → task.schedule_id ≡ none → is_active id task ≡ false
unscheduled_idle id task s = rw s refl
