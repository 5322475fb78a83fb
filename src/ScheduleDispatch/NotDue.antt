-- ===== src/ScheduleDispatch/NotDue.antt =====
-- backend/app/services/task_schedules.py: a schedule after its dispatch.
use agent_demo.Prelude.{◌<◌, Option, none, some}
use agent_demo.Outcome.{Result, ok, err}
use agent_demo.Task.{Task, Time}

-- A next run lies after now.
abbrev NextAhead : Time → Result (Option Time) → Type 0
NextAhead now (err error) = Unit
NextAhead now (ok none) = Unit
NextAhead now (ok (some at)) = now < at
