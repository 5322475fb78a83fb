-- ===== src/ToolExecutor/Audits.antt =====
-- backend/app/services/tool_executor.py: the audit rows that a run leaves.
use agent_demo.Prelude.{
  ◌≡◌, inl, inr, false, ◌⊎◌, refl, ◌∙◌, ap, true, not, ◌&&◌, Option, some, none, [], ◌∷◌, ◌++◌,
  arith, Bool-cases,
}
use agent_demo.Outcome.{Result, ok, err, Result-cases}
use agent_demo.Task.{Task}
use agent_demo.ToolCall.{
  Tool, World, Request, Clock, Session, RunResult, responded, reraised, ToolRunResponse, CallStatus,
  interrupted, Audit, Outcome, output, failing, cancelling,
}
use agent_demo.ToolExecutor.Recording.{record_audit, audit_row}
use agent_demo.ToolExecutor.{
  validate, run, attempt, gate, gated, dispatch_checks, conclude, answer, interrupted_response,
  refuse, marked_row, begin,
}

-- The status of the audit row that belongs to a result.
abbrev pub audited_status : RunResult → CallStatus
audited_status (responded response) = response.status
audited_status reraised = interrupted

pub record Audited (request : Request) (tool : Tool) (before : Session) (result : RunResult)
    (after : Session) : Type 0 where
  pub row : Audit
  pub one_row : after.audits ≡ before.audits ++ row ∷ []
  pub names_tool : row.tool_name ≡ tool.name
  pub names_task : row.task_id ≡ request.task_id
  pub has_input : row.input ≡ request.arguments
  pub has_status : row.status ≡ audited_status result

-- The audit of a cancelled call did not come through, and no row was added.
pub record Unaudited (world : World) (before : Session) (result : RunResult) (after : Session)
    : Type 0 where
  pub cancelled : result ≡ reraised
  pub late : world.audit_in_time ≡ false
  pub no_row : after.audits ≡ before.audits

module _ (world : World) (request : Request) (tool : Tool) (clock : Clock) where
  record_audit_rows :
      (response : ToolRunResponse) (session : Session)
      → request.with_session ≡ true
      → (record_audit request tool clock response session).audits
        ≡ session.audits ++ audit_row request tool clock response ∷ []
  unfolding record_audit
  record_audit_rows response session live = ground arith

  answer-Audited :
      (response : ToolRunResponse) (session : Session)
      → request.with_session ≡ true
      → Audited request tool session
          (responded response)
          (record_audit request tool clock response session)
  unfolding audit_row
  answer-Audited response session live = record {
    row = audit_row request tool clock response;
    one_row = record_audit_rows response session live;
    names_tool = refl;
    names_task = refl;
    has_input = refl;
    has_status = refl;
  }

  conclude-Audited :
      (o : Outcome) (session : Session)
      → request.with_session ≡ true
      → Audited request tool session
          (conclude world request tool clock o session).0
          (conclude world request tool clock o session).1
        ⊎ Unaudited world session
            (conclude world request tool clock o session).0
            (conclude world request tool clock o session).1
  unfolding conclude answer audit_row
  conclude-Audited (output j) session live = inl (answer-Audited _ session live)
  conclude-Audited (failing status message) session live = inl (answer-Audited _ session live)
  conclude-Audited cancelling session live = elim (Bool-cases world.audit_in_time) [
    | inr e ↦ simp e (inr (record { cancelled = refl; late = e; no_row = refl }))
    | inl e ↦ simp e (
        inl (record {
          row = audit_row request tool clock interrupted_response;
          one_row = record_audit_rows interrupted_response session live;
          names_tool = refl;
          names_task = refl;
          has_input = refl;
          has_status = refl;
        }))
  ]

  marked_audits :
      (row : Option Task) (session : Session)
      → (marked_row request row session).audits ≡ session.audits
  unfolding marked_row
  marked_audits none session = refl
  marked_audits (some t) session = ground arith

  gated_audits :
      (g : Result (Option Task)) (session : Session)
      → (gated world request tool session g).1.audits ≡ session.audits
  unfolding gated
  gated_audits (err e) session = refl
  gated_audits (ok row) session = elim (Result-cases (dispatch_checks world request tool)) [
    | inr (e, d) ↦ rw d (marked_audits row session)
    | inl (u, d) ↦ rw d (marked_audits row session)
  ]

  attempt_audits :
      (v : Result (Unit {0})) (session : Session)
      → (attempt world request tool clock session v).1.audits ≡ session.audits
  unfolding attempt
  attempt_audits (err e) session = refl
  attempt_audits (ok u) session = gated_audits (gate request tool clock session) session

since :
    {request : Request} {tool : Tool} {before between after : Session} {result : RunResult}
    → between.audits ≡ before.audits
    → Audited request tool between result after
    → Audited request tool before result after
since same a = record {
  row = a.row;
  one_row = a.one_row ∙ ap (λ rows. rows ++ a.row ∷ []) same;
  names_tool = a.names_tool;
  names_task = a.names_task;
  has_input = a.has_input;
  has_status = a.has_status;
}

since_none :
    {world : World} {before between after : Session} {result : RunResult}
    → between.audits ≡ before.audits
    → Unaudited world between result after
    → Unaudited world before result after
since_none same a = record { cancelled = a.cancelled; late = a.late; no_row = a.no_row ∙ same }

-- With a session, every run that answers its caller adds exactly one audit row, whether the call was
-- refused, failed, timed out or succeeded; a run whose attempt was cancelled adds one too where that
-- audit is committed in time, and otherwise none. The row names the tool, its arguments and the task of
-- the call, and its status is the status that the caller gets, or interrupted for a cancellation.
pub run_audits_once :
    (world : World) (request : Request) (tool : Tool) (clock : Clock) (session : Session)
    → request.with_session ≡ true
    → Audited request tool session
        (run world request tool clock session).0
        (run world request tool clock session).1
      ⊎ Unaudited world session
          (run world request tool clock session).0
          (run world request tool clock session).1
unfolding run refuse answer begin
run_audits_once world request tool clock session live = elim (Bool-cases tool.enabled) [
  | inr off ↦ simp off (inl (answer-Audited world request tool clock _ session live))
  | inl on ↦ elim (Bool-cases (tool.requires_confirmation && not request.confirmed)) [
    | inl blocked ↦
        simp (on, blocked) (inl (answer-Audited world request tool clock _ session live))
    | inr free ↦
        let begun : Session = begin request tool clock session in
        let v = validate world tool request.arguments in
        let (o, after) = attempt world request tool clock begun v in
        let same = attempt_audits world request tool clock v begun in
        simp (on, free)
          (elim (conclude-Audited world request tool clock o after live) [
            | inl a ↦ inl (since same a)
            | inr a ↦ inr (since_none same a)
          ])
  ]
]
