-- ===== src/Approvals.antt =====
-- backend/app/services/tool_approvals.py: stored approvals of tool calls. Each operation is an action
-- on the table of approval messages; what it commits before it raises stays committed.
pub mod Rows
pub mod Claims
pub mod History
use agent_demo.Prelude.{
  ℕ, ◌+◌, String, Bool, true, false, not, ◌&&◌, ◌||◌, Option, none, some, List, [], ◌∷◌, ◌++◌, ◌==◌,
  ltb, leb, if◌then◌else◌, str_eq, map,
}
use agent_demo.Json.{Json}
use agent_demo.Outcome.{Error, http, runtime_error, Result, ok, err}
use agent_demo.Task.{Time, seconds}

pub data ApprovalStatus : Type 0 where
  pending approved cancelled expired interrupted completed : ApprovalStatus

-- `metadata["approval"]`
pub record Approval : Type 0 where
  pub status : ApprovalStatus
  pub expires_at : Time
  pub updated_at : Option Time
  pub error : Option String
  pub tool_name : String
  pub arguments : Json
  pub message : String
  pub reason : String
  pub task_type : String

-- An entry of `metadata["tool_calls"]`.
pub record CallEntry : Type 0 where
  pub called_tool : String
  pub called_with : Json
  pub approval_id : Option ℕ
  pub approval_status : Option ApprovalStatus
  pub approval_expires_at : Option Time
  pub approval_error : Option String

-- A message of the assistant whose metadata holds an approval; `user_id` is its conversation's. The
-- metadata that only the resumed run reads (trace, model route, citations, continuation) is left out.
pub record Pending : Type 0 where
  pub id : ℕ
  pub conversation_id : ℕ
  pub user_id : Option ℕ
  pub created_at : Time
  pub approval : Approval
  pub tool_calls : List CallEntry

pub record ToolConfirmationRequest : Type 0 where
  pub conversation : ℕ
  pub approval_key : Option ℕ
  pub message_text : String
  pub tool : String
  pub tool_arguments : Json
  pub requested_type : String

abbrev pub Action : Type 0 → Type 0
Action A = List Pending → Result A × List Pending

abbrev pub is_pending : ApprovalStatus → Bool
is_pending pending = true
is_pending _ = false

abbrev pub conflict : String → Error
conflict detail = http 409 detail

abbrev same_user : Option ℕ → Option ℕ → Bool
same_user none none = true
same_user (some a) (some b) = a == b
same_user _ _ = false

-- Both filters of every statement: the conversation and its owner (`== None` becomes `IS NULL`).
abbrev pub in_scope : ℕ → Option ℕ → Pending → Bool
in_scope conversation user m = m.conversation_id == conversation && same_user m.user_id user

abbrev pub find : ℕ → List Pending → Option Pending
find key [] = none
find key (m ∷ ms) = if m.id == key then some m else find key ms

-- Writes the row with the message's id.
abbrev pub write : Pending → List Pending → List Pending
write row [] = []
write row (m ∷ ms) = if m.id == row.id then row ∷ ms else m ∷ write row ms

-- `a` comes before `b` in the order by creation and id, both descending.
abbrev newer : Pending → Pending → Bool
newer a b = ltb b.created_at a.created_at || b.created_at == a.created_at && ltb b.id a.id

better : Pending → Option Pending → Pending
better m none = m
better m (some n) = if newer n m then n else m

-- The first row of a descending query with `limit(1)`.
unfoldable pub newest : (Pending → Bool) → List Pending → Option Pending
unfolding better
newest test [] = none
newest test (m ∷ ms) = let rest = newest test ms in if test m then some (better m rest) else rest

not_found : Error
not_found = conflict "Tool approval was not found or already resolved"

found : Option Pending → Result Pending
unfolding not_found
found none = err not_found
found (some m) = ok m

scoped : (Pending → Bool) → Option Pending → Option Pending
scoped test none = none
scoped test (some m) = if test m then some m else none

-- `equal` is Python's `==` on JSON values, which PostgreSQL's `=` on jsonb follows.
module _ (equal : Json → Json → Bool) where
  -- The filters of the compatibility branch for clients that send no approval id.
  unfoldable pub is_exact_plan : ToolConfirmationRequest → Pending → Bool
  is_exact_plan payload m =
      is_pending m.approval.status
      && str_eq m.approval.tool_name payload.tool
      && str_eq m.approval.message payload.message_text
      && equal m.approval.arguments payload.tool_arguments

  -- `_locked` with a payload.
  unfoldable pub locked :
      ℕ → Option ℕ → Option ℕ → ToolConfirmationRequest → List Pending → Result Pending
  unfolding found scoped is_exact_plan newest
  locked conversation user (some key) payload rows =
      found (scoped (in_scope conversation user) (find key rows))
  locked conversation user none payload rows =
      found (newest (λ m. in_scope conversation user m && is_exact_plan payload m) rows)

  -- The comparison in `claim`: the stored plan is not the confirmed one.
  unfoldable pub mismatch : ToolConfirmationRequest → Approval → Bool
  mismatch payload a =
      not (str_eq a.tool_name payload.tool)
      || not (equal a.arguments payload.tool_arguments)
      || not (str_eq a.message payload.message_text)
      || not (str_eq a.task_type payload.requested_type)

-- `_locked` without a payload.
unfoldable pub locked_by_id : ℕ → Option ℕ → ℕ → List Pending → Result Pending
unfolding found scoped
locked_by_id conversation user key rows =
    found (scoped (in_scope conversation user) (find key rows))

abbrev mentions : ℕ → CallEntry → Bool
mentions key call = elim call.approval_id [ none ↦ false | some k ↦ k == key ]

mark_call : ℕ → ApprovalStatus → Option String → CallEntry → CallEntry
mark_call key status error call =
    if mentions key call
    then record call { approval_status = some status; approval_error = error }
    else call

-- The message's metadata as `finish` stores it.
unfoldable pub resolved : Time → ApprovalStatus → Option String → Pending → Pending
unfolding mark_call
resolved now status error m = record m {
  approval = record (m.approval) { status = status; updated_at = some now; error = error };
  tool_calls = map (mark_call m.id status error) m.tool_calls;
}

finish_row : Time → ApprovalStatus → Option String → Option Pending → Action Pending
finish_row now status error none rows = (err (runtime_error "Could not refresh instance"), rows)
finish_row now status error (some m) rows =
    (ok (resolved now status error m), write (resolved now status error m) rows)

-- `finish`: the row is read again (`refresh`) before it is written. The result is the message as
-- it is afterwards.
unfoldable pub finish : Time → Pending → ApprovalStatus → Option String → Action Pending
unfolding finish_row
finish now m status error rows = finish_row now status error (find m.id rows) rows

-- `_require_pending`: `none` for a pending approval in time; an expired one is marked first.
unfoldable pub require_pending : Time → Pending → List Pending → Option Error × List Pending
require_pending now m rows =
    if not (is_pending m.approval.status)
    then (some (conflict "Tool approval has already been resolved"), rows)
    else if leb m.approval.expires_at now
    then (
      some (conflict "Tool approval expired; send a new request"),
      (finish now m expired none rows).1,
    )
    else (none, rows)

claim_pending : Time → Pending → Option Error × List Pending → Result Pending × List Pending
claim_pending now m (some e, rows) = (err e, rows)
claim_pending now m (none, rows) = finish now m approved none rows

claim_locked :
    (Json → Json → Bool) → Time → ToolConfirmationRequest → Result Pending → Action Pending
unfolding claim_pending
claim_locked equal now payload (err e) rows = (err e, rows)
claim_locked equal now payload (ok m) rows =
    if mismatch equal payload m.approval
    then (err (conflict "Confirmation does not match the stored tool plan"), rows)
    else claim_pending now m (require_pending now m rows)

unfoldable pub claim :
    (Json → Json → Bool) → Time → Option ℕ → ToolConfirmationRequest → Action Pending
unfolding claim_locked
claim equal now user payload rows =
    claim_locked equal now payload
      (locked equal payload.conversation user payload.approval_key payload rows) rows

abbrev is_cancelled : ApprovalStatus → Bool
is_cancelled cancelled = true
is_cancelled _ = false

cancel_pending : Time → Pending → Option Error × List Pending → Result (Unit {0}) × List Pending
cancel_pending now m (some e, rows) = (err e, rows)
cancel_pending now m (none, rows) = (ok tt, (finish now m cancelled none rows).1)

cancel_locked : Time → Result Pending → Action (Unit {0})
unfolding cancel_pending
cancel_locked now (err e) rows = (err e, rows)
cancel_locked now (ok m) rows =
    if is_cancelled m.approval.status
    then (ok tt, rows)
    else cancel_pending now m (require_pending now m rows)

unfoldable pub cancel : Time → ℕ → ℕ → ℕ → Action (Unit {0})
unfolding cancel_locked
cancel now user conversation key rows =
    cancel_locked now (locked_by_id conversation (some user) key rows) rows

abbrev is_approved : ApprovalStatus → Bool
is_approved approved = true
is_approved _ = false

abbrev interrupted_error : String
interrupted_error =
    "Approved execution was interrupted. Check tool history before requesting it again; the tool may already have completed."

interrupt_row : Time → Option Pending → List Pending → List Pending
interrupt_row now none rows = rows
interrupt_row now (some m) rows =
    if is_approved m.approval.status
    then (finish now m interrupted (some interrupted_error) rows).1
    else rows

-- `interrupt`, after the rollback.
unfoldable pub interrupt : Time → ℕ → List Pending → List Pending
unfolding interrupt_row
interrupt now key rows = interrupt_row now (find key rows) rows

-- The row that `create` adds. `call` is the last tool call of the state, `earlier` those before it;
-- `key` is the `uuid4()` of the approval.
unfoldable pub new_approval :
    Time → ℕ → ℕ → ℕ → Option ℕ → String → String → String → List CallEntry → CallEntry → Pending
new_approval now ttl key conversation user message reason task_type earlier call = record {
  id = key;
  conversation_id = conversation;
  user_id = user;
  created_at = now;
  approval = record {
    status = pending;
    expires_at = now + seconds ttl;
    updated_at = none;
    error = none;
    tool_name = call.called_tool;
    arguments = call.called_with;
    message = message;
    reason = reason;
    task_type = task_type;
  };
  tool_calls =
      earlier
      ++ record call {
        approval_id = some key;
        approval_status = some pending;
        approval_expires_at = some (now + seconds ttl);
      }
        ∷ [];
}

unfoldable pub create :
    Time
    → ℕ
    → ℕ
    → ℕ
    → Option ℕ
    → String
    → String
    → String
    → List CallEntry
    → CallEntry
    → List Pending
    → List Pending
create now ttl key conversation user message reason task_type earlier call rows =
    rows ++ new_approval now ttl key conversation user message reason task_type earlier call ∷ []
