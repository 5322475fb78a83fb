-- ===== src/Examples/Approval.antt =====
-- One stored approval, and the requests that consume it.
use agent_demo.Prelude.{◌≤◌, ◌≡◌, refl, Bool, true, none, some, List, [], ◌∷◌}
use agent_demo.Json.{Json, obj, text, end, field}
use agent_demo.Approvals.{
  Pending, ToolConfirmationRequest, pending, approved, claim, resolved, write, locked, mismatch,
  finish, require_pending,
}
use agent_demo.Approvals.Claims.{IsClaimable, claim-ok}
use agent_demo.Approvals.History.{claims, interrupts, total_grants, approval_once}

abbrev arguments : Json
arguments = obj (field "path" (text "notes.md") end)

abbrev waiting : Pending
waiting = record {
  id = 3;
  conversation_id = 9;
  user_id = some 4;
  created_at = 10;
  approval = record {
    status = pending;
    expires_at = 100;
    updated_at = none;
    error = none;
    tool_name = "write_file";
    arguments = arguments;
    message = "save my notes";
    reason = "the tool writes a file";
    task_type = "tool";
  };
  tool_calls =
      record {
        called_tool = "write_file";
        called_with = arguments;
        approval_id = some 3;
        approval_status = some pending;
        approval_expires_at = some 100;
        approval_error = none;
      }
      ∷ [];
}

abbrev confirmation : ToolConfirmationRequest
confirmation = record {
  conversation = 9;
  approval_key = some 3;
  message_text = "save my notes";
  tool = "write_file";
  tool_arguments = arguments;
  requested_type = "tool";
}

abbrev equal : Json → Json → Bool
equal a b = true

abbrev rows : List Pending
rows = waiting ∷ []

approval_once_example :
    total_grants equal 3
      (claims 20 (some 4) confirmation
        ∷ claims 21 (some 4) confirmation
        ∷ interrupts 22 3
        ∷ claims 23 (some 4) confirmation
        ∷ [])
      rows
    ≤ 1
approval_once_example =
    approval_once equal
      (claims 20 (some 4) confirmation
        ∷ claims 21 (some 4) confirmation
        ∷ interrupts 22 3
        ∷ claims 23 (some 4) confirmation
        ∷ [])
      rows 3 (refl, tt)

abbrev granted_row : Pending
granted_row = resolved 20 approved none waiting

claim-ok_example :
    (m : Pending) × IsClaimable equal 20 (some 4) confirmation rows m
    × (granted_row ≡ resolved 20 approved none m)
    × (granted_row ∷ [] ≡ write (resolved 20 approved none m) rows)
unfolding claim locked mismatch require_pending finish resolved
claim-ok_example =
    claim-ok equal 20 (some 4) confirmation rows (refl, tt) granted_row (granted_row ∷ []) refl
