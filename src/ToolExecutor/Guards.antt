-- ===== src/ToolExecutor/Guards.antt =====
-- When the tool is really called, and what is durable by then.
use agent_demo.Prelude.{
  ℕ, ◌≡◌, ◌⊎◌, inl, inr, refl, sym, ◌∙◌, ap, String, true, false, not, ◌&&◌, Option, some, none,
  is_some, [], ◌∷◌, ◌++◌, arith, Bool-cases,
}
use mathlib.Core.Path.{subst}
use agent_demo.Outcome.{ok, is_ok, Result-cases}
use agent_demo.Task.{Task}
use agent_demo.Lease.{TaskLease, block_replay, lock_task_lease}
use agent_demo.Dispatch.{dispatch_reason, mark_dispatch}
use agent_demo.ToolCall.{
  Tool, World, Request, Clock, Session, ToolRunResponse, OutsideCall, Outcome, output, failing,
  cancelling,
}
use agent_demo.ToolExecutor.Recording.{record_audit, row_of}
use agent_demo.ToolExecutor.{
  validate, dispatch_checks, run, attempt, gate, conclude, refuse, lease_row, marked_row, call_of,
  begin,
}

-- A call that `attempt` made, and the row that its gate committed before.
record Called (world : World) (request : Request) (tool : Tool) (clock : Clock)
    (before after : Session) : Type 0 where
  pub row : Option Task
  pub is_valid : is_ok (validate world tool request.arguments) ≡ true
  pub is_allowed : is_ok (dispatch_checks world request tool) ≡ true
  pub was_gated : gate request tool clock before ≡ ok row
  pub noted :
      after.calls ≡ before.calls ++ call_of request tool (marked_row request row before) ∷ []

module _ (world : World) (request : Request) (tool : Tool) (clock : Clock) (session : Session) where
  record_audit_calls :
      (response : ToolRunResponse)
      → (record_audit request tool clock response session).calls ≡ session.calls
  unfolding record_audit
  record_audit_calls response = ground arith

  conclude_calls :
      (o : Outcome) → (conclude world request tool clock o session).1.calls ≡ session.calls
  unfolding conclude record_audit
  conclude_calls (output j) = ground arith
  conclude_calls (failing status message) = ground arith
  conclude_calls cancelling = ground arith

  refuse_calls :
      (message : String) → (refuse request tool clock message session).1.calls ≡ session.calls
  unfolding refuse record_audit
  refuse_calls message = ground arith

  marked_calls : (row : Option Task) → (marked_row request row session).calls ≡ session.calls
  unfolding marked_row
  marked_calls none = refl
  marked_calls (some t) = ground arith

  attempt_calls :
      let after =
        (attempt world request tool clock session (validate world tool request.arguments)).1 in
      (after.calls ≡ session.calls) ⊎ (Called world request tool clock session after)
  unfolding attempt
  attempt_calls = elim (Result-cases (validate world tool request.arguments)) [
    | inr (e, v) ↦ inl (rw v)
    | inl (u, v) ↦ elim (Result-cases (gate request tool clock session)) [
      | inr (e, g) ↦ inl (rw (v, g))
      | inl (row, g) ↦ elim (Result-cases (dispatch_checks world request tool)) [
        | inr (e, d) ↦ inl (rw (v, g, d) (marked_calls row))
        | inl (x, d) ↦ inr (record {
          row = row;
          is_valid = rw v;
          is_allowed = rw d;
          was_gated = g;
          noted =
              rw (v, g, d)
                (ap (λ cs. cs ++ call_of request tool (marked_row request row session) ∷ [])
                  (marked_calls row));
        })
      ]
    ]
  ]

-- The row carries the durable mark against replay.
abbrev pub Marked : Option Task → Type 0
Marked none = ⊥
Marked (some task) = is_some task.replay_blocked_at ≡ true

mark_dispatch_marks :
    (key : ℕ) (lease : TaskLease) (now at : ℕ) (name : String) (row linked : Option Task)
    {result : Option Task}
    → mark_dispatch (some key) (some lease) now at name row linked ≡ ok result
    → (t : Task) × (result ≡ some t) × (is_some t.replay_blocked_at ≡ true)
unfolding mark_dispatch lock_task_lease block_replay
mark_dispatch_marks key lease now at name none linked h = cc
mark_dispatch_marks key lease now at name (some task) linked h =
    (block_replay at (dispatch_reason name) task, ground arith, ground arith)

gate_marks :
    (request : Request) (tool : Tool) (clock : Clock) (session : Session) (row : Option Task)
    (key : ℕ) (lease : TaskLease)
    → gate request tool clock session ≡ ok row
    → request.with_session ≡ true
    → request.task_id ≡ some key
    → request.lease ≡ some lease
    → lease.task_id ≡ key
    → Marked (row_of request.task_id (marked_row request row session).tasks)
unfolding gate marked_row lease_row
gate_marks request tool clock session row key lease g w k l e =
    let (t, r, m) =
      mark_dispatch_marks key lease clock.lock_at clock.marked tool.name
        (lease_row (some lease) session.tasks) (session.tasks key) {result = row} (ground arith) in
    let here : row_of request.task_id (marked_row request row session).tasks ≡ some t =
      ground arith in
    subst Marked (sym here) m

-- What a run that calls the tool has passed, and the gate behind its call.
record Gated (world : World) (request : Request) (tool : Tool) (clock : Clock)
    (before after : Session) : Type 0 where
  pub is_enabled : tool.enabled ≡ true
  pub is_confirmed : (tool.requires_confirmation && not request.confirmed) ≡ false
  pub called : Called world request tool clock (begin request tool clock before) after

run-Gated :
    (world : World) (request : Request) (tool : Tool) (clock : Clock) (session : Session)
    → let after = (run world request tool clock session).1 in
      (after.calls ≡ session.calls) ⊎ Gated world request tool clock session after
unfolding run begin
run-Gated world request tool clock session = elim (Bool-cases tool.enabled) [
  | inr off ↦ inl (simp off (refuse_calls world request tool clock session "Tool is disabled"))
  | inl on ↦ elim (Bool-cases (tool.requires_confirmation && not request.confirmed)) [
    | inl blocked ↦ inl (
        simp (on, blocked)
          (refuse_calls world request tool clock session
            "Tool requires confirmation before execution"))
    | inr free ↦
        let begun : Session = begin request tool clock session in
        let tried =
          attempt world request tool clock begun (validate world tool request.arguments) in
        let same = conclude_calls world request tool clock tried.1 tried.0 in
        elim (attempt_calls world request tool clock begun) [
          | inl none_made ↦ inl (simp (on, free) (same ∙ none_made))
          | inr c ↦ inr (record {
            is_enabled = on;
            is_confirmed = free;
            called = record {
              row = c.row;
              is_valid = c.is_valid;
              is_allowed = c.is_allowed;
              was_gated = c.was_gated;
              noted = simp (on, free) (same ∙ c.noted);
            };
          })
        ]
  ]
]

-- A run that calls the tool: it is enabled, confirmed where it must be, its arguments are valid,
-- and the dispatch checks pass; and exactly one call is made.
pub record IsCall (world : World) (request : Request) (tool : Tool) (before after : Session)
    : Type 0 where
  pub is_enabled : tool.enabled ≡ true
  pub is_confirmed : (tool.requires_confirmation && not request.confirmed) ≡ false
  pub is_valid : is_ok (validate world tool request.arguments) ≡ true
  pub is_allowed : is_ok (dispatch_checks world request tool) ≡ true
  pub call : OutsideCall
  pub one_call : after.calls ≡ before.calls ++ call ∷ []
  pub names_tool : call.called ≡ tool.name
  pub passes_arguments : call.arguments ≡ request.arguments

-- A run makes no outside call, or it makes exactly one, with the arguments given, for a tool that is
-- enabled, is confirmed if it needs to be, has valid arguments and passes the dispatch checks.
pub run_calls :
    (world : World) (request : Request) (tool : Tool) (clock : Clock) (session : Session)
    → let after = (run world request tool clock session).1 in
      (after.calls ≡ session.calls) ⊎ IsCall world request tool session after
unfolding begin
run_calls world request tool clock session = elim (run-Gated world request tool clock session) [
  | inl none_made ↦ inl none_made
  | inr g ↦ inr (record {
    is_enabled = g.is_enabled;
    is_confirmed = g.is_confirmed;
    is_valid = g.called.is_valid;
    is_allowed = g.called.is_allowed;
    call =
        call_of request tool (marked_row request g.called.row (begin request tool clock session));
    one_call = g.called.noted;
    names_tool = refl;
    passes_arguments = refl;
  })
]

-- Where a call belongs to a task whose lease the run holds, the run makes no outside call, or it makes
-- one, and the task's row as it was committed when the call was made is marked against replay.
pub run_marks_first :
    (world : World) (request : Request) (tool : Tool) (clock : Clock) (session : Session) (key : ℕ)
    (lease : TaskLease)
    → request.with_session ≡ true
    → request.task_id ≡ some key
    → request.lease ≡ some lease
    → lease.task_id ≡ key
    → let after = (run world request tool clock session).1 in
      (after.calls ≡ session.calls)
      ⊎ ((call : OutsideCall) × (after.calls ≡ session.calls ++ call ∷ []) × Marked call.row_then)
unfolding begin
run_marks_first world request tool clock session key lease w k l e =
    elim (run-Gated world request tool clock session) [
      | inl none_made ↦ inl none_made
      | inr g ↦
          let begun : Session = begin request tool clock session in
          inr (
            call_of request tool (marked_row request g.called.row begun),
            g.called.noted,
            gate_marks request tool clock begun g.called.row key lease g.called.was_gated w k l e,
          )
    ]
