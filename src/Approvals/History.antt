-- ===== src/Approvals/History.antt =====
-- backend/app/services/tool_approvals.py: sequences of requests, and what they grant.
use agent_demo.Prelude.{
  ℕ, ◌+◌, ◌≤◌, ◌≡◌, ◌⊎◌, inl, inr, refl, String, Bool, true, false, not, Option, some, none,
  is_some, List, [], ◌∷◌, arith, ◌==◌, leb, if◌then◌else◌, Bool-cases, Option-cases,
}
use mathlib.Core.Path.{subst}
use agent_demo.Json.{Json}
use agent_demo.Outcome.{Error, Result, ok, err, Result-cases}
use agent_demo.Task.{Time}
use agent_demo.Approvals.{
  Pending, CallEntry, ApprovalStatus, approved, cancelled, expired, interrupted, completed,
  ToolConfirmationRequest, find, write, is_pending, resolved, finish, require_pending, claim,
  cancel, interrupt, create, new_approval, locked, locked_by_id, mismatch, conflict, is_cancelled,
  is_approved, interrupted_error,
}
use agent_demo.Approvals.Rows.{Unique, find-write, write-Unique, find-append, append-Unique}
use agent_demo.Approvals.Claims.{claim-ok}

-- The requests that touch approvals. `done` is the runtime's `finish(approval, "completed")` at the
-- end of a confirmed run; the database refuses to create a row under an id that it holds.
pub data Request : Type 0 where
  claims : Time → Option ℕ → ToolConfirmationRequest → Request
  cancels : Time → ℕ → ℕ → ℕ → Request
  interrupts : Time → ℕ → Request
  done : Time → Pending → Request
  creates :
      Time → ℕ → ℕ → ℕ → Option ℕ → String → String → String → List CallEntry → CallEntry → Request

unfoldable pub perform : (Json → Json → Bool) → Request → List Pending → List Pending
perform equal (claims now user payload) rows = (claim equal now user payload rows).1
perform equal (cancels now user conversation key) rows = (cancel now user conversation key rows).1
perform equal (interrupts now key) rows = interrupt now key rows
perform equal (done now m) rows = (finish now m completed none rows).1
perform equal (creates now ttl key conversation user message reason task_type earlier call) rows =
    if is_some (find key rows)
    then rows
    else create now ttl key conversation user message reason task_type earlier call rows

abbrev claimed_id : Result Pending → Option ℕ
claimed_id (ok m) = some m.id
claimed_id (err e) = none

abbrev is_key : ℕ → Option ℕ → ℕ
is_key key none = 0
is_key key (some k) = if k == key then 1 else 0

-- How many times a request lets the tool of the approval `key` run.
abbrev pub grants : (Json → Json → Bool) → ℕ → Request → List Pending → ℕ
grants equal key (claims now user payload) rows =
    is_key key (claimed_id (claim equal now user payload rows).0)
grants equal key (cancels now user conversation k) rows = 0
grants equal key (interrupts now k) rows = 0
grants equal key (done now m) rows = 0
grants equal key (creates now ttl k conversation user message reason task_type earlier call) rows =
    0

abbrev pub total_grants : (Json → Json → Bool) → ℕ → List Request → List Pending → ℕ
total_grants equal key [] rows = 0
total_grants equal key (q ∷ qs) rows =
    grants equal key q rows + total_grants equal key qs (perform equal q rows)

-- The approval is stored and has left the pending state.
abbrev resolved_row : Option Pending → Bool
resolved_row none = false
resolved_row (some m) = not (is_pending m.approval.status)

abbrev pub is_resolved : ℕ → List Pending → Bool
is_resolved key rows = resolved_row (find key rows)

-- What one row's write leaves of the others, and of its own status.
write-resolved :
    (now : Time) (status : ApprovalStatus) (error : Option String) (m : Pending)
    (rows : List Pending) (key : ℕ)
    → is_pending status ≡ false
    → is_resolved key rows ≡ true
    → is_resolved key (write (resolved now status error m) rows) ≡ true
unfolding resolved
write-resolved now status error m rows key p h =
    ground (arith, find-write key (resolved now status error m) rows)

resolved_id :
    (now : Time) (status : ApprovalStatus) (error : Option String) (m : Pending)
    → (resolved now status error m).id ≡ m.id
unfolding resolved
resolved_id now status error m = refl

-- Each action leaves the table as it was, or writes one resolved row.
abbrev Touches : List Pending → List Pending → Type 0
Touches rows after =
    (after ≡ rows)
    ⊎ ((now : Time) × (status : ApprovalStatus) × (error : Option String) × (m : Pending)
        × (is_pending status ≡ false)
        × (after ≡ write (resolved now status error m) rows))

finish-Touches :
    (now : Time) (m : Pending) (status : ApprovalStatus) (error : Option String)
    (rows : List Pending)
    → is_pending status ≡ false
    → Touches rows (finish now m status error rows).1
unfolding finish
finish-Touches now m status error rows p = elim (Option-cases (find m.id rows)) [
  | inl e ↦ inl (ground arith)
  | inr (x, e) ↦ inr (now, status, error, x, p, ground arith)
]

require_cases :
    (now : Time) (m : Pending) (rows : List Pending)
    → (require_pending now m rows ≡ (none, rows))
      ⊎ ((e : Error) × (after : List Pending) × (require_pending now m rows ≡ (some e, after))
          × Touches rows after)
unfolding require_pending
require_cases now m rows = elim (Bool-cases (is_pending m.approval.status)) [
  | inl p ↦ elim (Bool-cases (leb m.approval.expires_at now)) [
    | inl t ↦ inr (
      conflict "Tool approval expired; send a new request",
      (finish now m expired none rows).1,
      ground arith,
      finish-Touches now m expired none rows refl,
    )
    | inr t ↦ inl (ground arith)
  ]
  | inr p ↦ inr (conflict "Tool approval has already been resolved", rows, ground arith, inl refl)
]

module _ (rows : List Pending) where
  claim-Touches :
      (equal : Json → Json → Bool) (now : Time) (user : Option ℕ)
      (payload : ToolConfirmationRequest)
      → Touches rows (claim equal now user payload rows).1
  unfolding claim
  claim-Touches equal now user payload =
      elim (Result-cases
        (locked equal payload.conversation user payload.approval_key payload rows)) [
          | inr (e, l) ↦ inl (ground arith)
          | inl (m, l) ↦ elim (Bool-cases (mismatch equal payload m.approval)) [
            | inl x ↦ inl (ground arith)
            | inr x ↦ elim (require_cases now m rows) [
              | inl r ↦
                  subst (Touches rows) (ground arith) (finish-Touches now m approved none rows refl)
              | inr (e, after, r, t) ↦ subst (Touches rows) (ground arith) t
            ]
          ]
        ]

  cancel-Touches :
      (now : Time) (user conversation key : ℕ)
      → Touches rows (cancel now user conversation key rows).1
  unfolding cancel
  cancel-Touches now user conversation key =
      elim (Result-cases (locked_by_id conversation (some user) key rows)) [
        | inr (e, l) ↦ inl (ground arith)
        | inl (m, l) ↦ elim (Bool-cases (is_cancelled m.approval.status)) [
          | inl x ↦ inl (ground arith)
          | inr x ↦ elim (require_cases now m rows) [
            | inl r ↦
                subst (Touches rows) (ground arith) (finish-Touches now m cancelled none rows refl)
            | inr (e, after, r, t) ↦ subst (Touches rows) (ground arith) t
          ]
        ]
      ]

  interrupt-Touches : (now : Time) (key : ℕ) → Touches rows (interrupt now key rows)
  unfolding interrupt
  interrupt-Touches now key = elim (Option-cases (find key rows)) [
    | inl e ↦ inl (ground arith)
    | inr (m, e) ↦ elim (Bool-cases (is_approved m.approval.status)) [
      | inl a ↦
          subst (Touches rows) (ground arith)
            (finish-Touches now m interrupted (some interrupted_error) rows refl)
      | inr a ↦ inl (ground arith)
    ]
  ]

Touches-Unique : (rows after : List Pending) → Touches rows after → Unique rows → Unique after
Touches-Unique rows after (inl e) u = rw e u
Touches-Unique rows after (inr (now, status, error, m, p, e)) u =
    rw e (write-Unique (resolved now status error m) rows u)

Touches-is_resolved :
    (rows after : List Pending) (key : ℕ)
    → Touches rows after
    → is_resolved key rows ≡ true
    → is_resolved key after ≡ true
Touches-is_resolved rows after key (inl e) r = rw e r
Touches-is_resolved rows after key (inr (now, status, error, m, p, e)) r =
    rw e (write-resolved now status error m rows key p r)

create_keeps :
    (equal : Json → Json → Bool) (now ttl k conversation : ℕ) (user : Option ℕ)
    (message reason task_type : String) (earlier : List CallEntry) (call : CallEntry)
    (rows : List Pending) (key : ℕ)
    → let after =
        perform equal
          (creates now ttl k conversation user message reason task_type earlier call)
          rows in
      (Unique rows → Unique after) × (is_resolved key rows ≡ true → is_resolved key after ≡ true)
unfolding perform create new_approval
create_keeps equal now ttl k conversation user message reason task_type earlier call rows key =
    let m = new_approval now ttl k conversation user message reason task_type earlier call in
    elim (Option-cases (find k rows)) [
      | inr (x, e) ↦ rw e (λ u. u, λ r. r)
      | inl e ↦ rw e (append-Unique rows m e, λ r. ground (arith, find-append key rows m))
    ]

perform_keeps :
    (equal : Json → Json → Bool) (q : Request) (rows : List Pending) (key : ℕ)
    → (Unique rows → Unique (perform equal q rows))
      × (is_resolved key rows ≡ true → is_resolved key (perform equal q rows) ≡ true)
unfolding perform
perform_keeps equal (claims now user payload) rows key =
    let t = claim-Touches rows equal now user payload in
    (
      Touches-Unique rows (claim equal now user payload rows).1 t,
      Touches-is_resolved rows (claim equal now user payload rows).1 key t,
    )
perform_keeps equal (cancels now user conversation k) rows key =
    let t = cancel-Touches rows now user conversation k in
    (
      Touches-Unique rows (cancel now user conversation k rows).1 t,
      Touches-is_resolved rows (cancel now user conversation k rows).1 key t,
    )
perform_keeps equal (interrupts now k) rows key =
    let t = interrupt-Touches rows now k in
    (
      Touches-Unique rows (interrupt now k rows) t,
      Touches-is_resolved rows (interrupt now k rows) key t,
    )
perform_keeps equal (done now m) rows key =
    let t = finish-Touches now m completed none rows refl in
    (
      Touches-Unique rows (finish now m completed none rows).1 t,
      Touches-is_resolved rows (finish now m completed none rows).1 key t,
    )
perform_keeps equal (creates now ttl k conversation user message reason task_type earlier call) rows
      key =
    create_keeps equal now ttl k conversation user message reason task_type earlier call rows key

granted_once :
    (equal : Json → Json → Bool) (now : Time) (user : Option ℕ) (payload : ToolConfirmationRequest)
    (rows : List Pending) (key : ℕ) (m : Pending)
    → Unique rows
    → (claim equal now user payload rows).0 ≡ ok m
    → m.id ≡ key
    → (grants equal key (claims now user payload) rows ≡ 1)
      × (is_resolved key rows ≡ false)
      × (is_resolved key (claim equal now user payload rows).1 ≡ true)
unfolding resolved
granted_once equal now user payload rows key m u l x =
    let after = (claim equal now user payload rows).1 in
    let (stored, c, e, f) = claim-ok equal now user payload rows u m after (λ i. (l i, after)) in
    let s = c.stored in
    let o = c.open_still in
    (
      ground arith,
      ground arith,
      ground (arith, find-write key (resolved now approved none stored) rows),
    )

-- A granted request leaves the approval resolved, and grants nothing for one that was resolved.
grants_once :
    (equal : Json → Json → Bool) (q : Request) (rows : List Pending) (key : ℕ)
    → Unique rows
    → (grants equal key q rows ≡ 0)
      ⊎ ((grants equal key q rows ≡ 1)
          × (is_resolved key rows ≡ false)
          × (is_resolved key (perform equal q rows) ≡ true))
unfolding perform resolved
grants_once equal (claims now user payload) rows key u =
    elim (Result-cases (claim equal now user payload rows).0) [
      | inr (e, l) ↦ inl (rw l)
      | inl (m, l) ↦ elim (Bool-cases (m.id == key)) [
        | inr x ↦ inl (rw (l, x))
        | inl x ↦ inr (granted_once equal now user payload rows key m u l (ground arith))
      ]
    ]
grants_once equal _ rows key u = inl refl

resolved_no_grants :
    (equal : Json → Json → Bool) (qs : List Request) (rows : List Pending) (key : ℕ)
    → Unique rows
    → is_resolved key rows ≡ true
    → total_grants equal key qs rows ≡ 0
resolved_no_grants equal [] rows key u r = refl
resolved_no_grants equal (q ∷ qs) rows key u r = ground (
  arith,
  grants_once equal q rows key u,
  resolved_no_grants equal qs (perform equal q rows) key ((perform_keeps equal q rows key).0 u)
      ((perform_keeps equal q rows key).1 r),
)

-- Over any sequence of claims, cancellations, interruptions, completions and new approvals, one
-- approval lets its tool run at most once.
pub approval_once :
    (equal : Json → Json → Bool) (qs : List Request) (rows : List Pending) (key : ℕ)
    → Unique rows
    → total_grants equal key qs rows ≤ 1
approval_once equal [] rows key u = omega arith
approval_once equal (q ∷ qs) rows key u =
    let v = (perform_keeps equal q rows key).0 u in
    elim (grants_once equal q rows key u) [
      | inl z ↦ omega (arith, approval_once equal qs (perform equal q rows) key v)
      | inr (o, b, r) ↦ omega (arith, resolved_no_grants equal qs (perform equal q rows) key v r)
    ]
