-- ===== src/Approvals/Claims.antt =====
-- backend/app/services/tool_approvals.py: claiming and cancelling, branch by branch.
use agent_demo.Prelude.{
  ℕ, ◌<◌, ◌≡◌, inl, inr, String, Bool, true, false, Option, some, none, List, arith, ◌&&◌,
  if◌then◌else◌, leb, eq_iff,
}
use agent_demo.Json.{Json}
use agent_demo.Outcome.{Error, ok, err, Result-cases}
use agent_demo.Task.{Time}
use agent_demo.Approvals.{
  Pending, ApprovalStatus, pending, approved, cancelled, expired, ToolConfirmationRequest, find,
  write, in_scope, is_exact_plan, locked, locked_by_id, mismatch, resolved, finish, require_pending,
  claim, cancel, conflict,
}
use agent_demo.Approvals.Rows.{Unique, find_id, find-write, newest-find}

-- The plan that a claim accepted: stored, owned by the caller, equal to the confirmed plan, pending
-- and in time.
pub record IsClaimable (equal : Json → Json → Bool) (now : Time) (user : Option ℕ)
    (payload : ToolConfirmationRequest) (rows : List Pending) (m : Pending) : Type 0 where
  pub stored : find m.id rows ≡ some m
  pub owned : in_scope payload.conversation user m ≡ true
  pub same_tool : m.approval.tool_name ≡ payload.tool
  pub same_message : m.approval.message ≡ payload.message_text
  pub same_type : m.approval.task_type ≡ payload.requested_type
  pub same_arguments : equal m.approval.arguments payload.tool_arguments ≡ true
  pub open_still : m.approval.status ≡ pending
  pub in_time : now < m.approval.expires_at

module _ (equal : Json → Json → Bool) (now : Time) (user : Option ℕ)
    (payload : ToolConfirmationRequest) (rows : List Pending) where
  locked-stored :
      (m : Pending) (key : Option ℕ)
      → Unique rows
      → locked equal payload.conversation user key payload rows ≡ ok m
      → (find m.id rows ≡ some m) × (in_scope payload.conversation user m ≡ true)
  unfolding locked
  locked-stored m none u h = ground (
    arith,
    newest-find (λ x. in_scope payload.conversation user x && is_exact_plan equal payload x) rows m
        u,
  )
  locked-stored m (some k) u h = ground (arith, find_id k rows m)

  finish_stored :
      (m : Pending) (status : ApprovalStatus) (error : Option String)
      → find m.id rows ≡ some m
      → finish now m status error rows
        ≡ (ok (resolved now status error m), write (resolved now status error m) rows)
  unfolding finish
  finish_stored m status error h = ground arith

  claim_step :
      (m : Pending)
      → locked equal payload.conversation user payload.approval_key payload rows ≡ ok m
      → find m.id rows ≡ some m
      → (result : Pending) (after : List Pending)
      → claim equal now user payload rows ≡ (ok result, after)
      → (mismatch equal payload m.approval ≡ false)
        × (m.approval.status ≡ pending)
        × (now < m.approval.expires_at)
        × (result ≡ resolved now approved none m)
        × (after ≡ write (resolved now approved none m) rows)
  unfolding claim require_pending
  claim_step m l f result after h = ground (arith, finish_stored m approved none)

  claim_refused :
      (e : Error)
      → locked equal payload.conversation user payload.approval_key payload rows ≡ err e
      → (result : Pending) (after : List Pending)
      → claim equal now user payload rows ≡ (ok result, after)
      → ⊥
  unfolding claim
  claim_refused e l result after h = ground arith

  same_plan :
      (m : Pending)
      → mismatch equal payload m.approval ≡ false
      → (m.approval.tool_name ≡ payload.tool)
        × (m.approval.message ≡ payload.message_text)
        × (m.approval.task_type ≡ payload.requested_type)
        × (equal m.approval.arguments payload.tool_arguments ≡ true)
  unfolding mismatch
  same_plan m h = ground (
    arith,
    eq_iff m.approval.tool_name payload.tool,
    eq_iff m.approval.message payload.message_text,
    eq_iff m.approval.task_type payload.requested_type,
  )

  -- A claim that succeeds was for a stored approval of the caller that matches the confirmed plan,
  -- was pending and had not expired. It marks that row approved, and changes no other row.
  pub claim-ok :
      Unique rows
      → (result : Pending) (after : List Pending)
      → claim equal now user payload rows ≡ (ok result, after)
      → (m : Pending) × IsClaimable equal now user payload rows m
        × (result ≡ resolved now approved none m)
        × (after ≡ write (resolved now approved none m) rows)
  claim-ok u result after h =
      elim (Result-cases
        (locked equal payload.conversation user payload.approval_key payload rows)) [
          | inl (m, l) ↦
              let (f, s) = locked-stored m payload.approval_key u l in
              let (a, b, c, d, e) = claim_step m l f result after h in
              let (tool_eq, message_eq, type_eq, arguments_eq) = same_plan m a in
              (
                m,
                record {
                  stored = f;
                  owned = s;
                  same_tool = tool_eq;
                  same_message = message_eq;
                  same_type = type_eq;
                  same_arguments = arguments_eq;
                  open_still = b;
                  in_time = c;
                },
                d,
                e,
              )
          | inr (e, l) ↦ absurd (claim_refused e l result after h)
        ]

  -- An approval named by its id is claimed whenever it is the caller's, matches, is pending and has
  -- not expired; past its expiry the claim is refused and the row is marked expired.
  pub claim_by_id :
      (m : Pending)
      → payload.approval_key ≡ some m.id
      → find m.id rows ≡ some m
      → in_scope payload.conversation user m ≡ true
      → mismatch equal payload m.approval ≡ false
      → m.approval.status ≡ pending
      → claim equal now user payload rows ≡ (
          if leb m.approval.expires_at now
          then (
            err (conflict "Tool approval expired; send a new request"),
            write (resolved now expired none m) rows,
          )
          else (ok (resolved now approved none m), write (resolved now approved none m) rows))
  unfolding claim require_pending locked
  claim_by_id m k f s x p =
      ground (arith, finish_stored m approved none, finish_stored m expired none)

-- Cancelling a pending approval of the owner in time succeeds, and cancelling it again succeeds and
-- changes nothing.
pub cancel_twice :
    (now later : Time) (user conversation : ℕ) (m : Pending) (rows : List Pending)
    → find m.id rows ≡ some m
    → in_scope conversation (some user) m ≡ true
    → m.approval.status ≡ pending
    → now < m.approval.expires_at
    → let after = write (resolved now cancelled none m) rows in
      (cancel now user conversation m.id rows ≡ (ok tt, after))
      × (cancel later user conversation m.id after ≡ (ok tt, after))
unfolding cancel locked_by_id require_pending finish resolved
cancel_twice now later user conversation m rows f s p t =
    (ground arith, ground (arith, find-write m.id (resolved now cancelled none m) rows))
