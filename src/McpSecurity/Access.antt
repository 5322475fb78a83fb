-- ===== src/McpSecurity/Access.antt =====
-- The access policies and the confirmation rule, against direct descriptions of them.
use agent_demo.Prelude.{
  ◌≡◌, refl, String, Bool, true, false, not, ◌&&◌, ◌||◌, Option, none, some, arith, str_eq, eq_iff,
  member, Bool-cases, inl, inr, strip,
}
use agent_demo.Outcome.{is_ok}
use agent_demo.McpSecurity.{
  McpIdentity, McpSettings, is_bound, authorize_mcp_access, normalize_mcp_permission,
  known_permission, mcp_permissions, requires_mcp_confirmation, risky_mcp_permissions,
  enforce_mcp_tool_policy, validate_mcp_fetch_url, web_scheme,
}

-- One text is not another.
apart : (s a b : String) → str_eq a b ≡ false → str_eq s a ≡ true → str_eq s b ≡ false
apart s a b h e = rw ((eq_iff s a).0 e) h

-- An address that is no literal, or none of the blocked kinds.
abbrev pub address_allowed : Option Bool → Bool
address_allowed none = true
address_allowed (some blocked) = not blocked

-- Whether a policy admits an identity for a call that is not remote.
abbrev pub admits : String → McpIdentity → Bool
admits policy identity =
    not (str_eq policy "disabled")
    && (not (str_eq policy "authenticated") || is_bound identity)
    && (not (str_eq policy "admin-only") || identity.is_admin)

-- Access is granted exactly when the policy admits the identity and, for a remote call, remote
-- access is enabled and the policy is not "local-only".
pub authorize_mcp_access-ok_iff :
    (identity : McpIdentity) (settings : McpSettings) (remote : Bool)
    → is_ok (authorize_mcp_access identity settings remote) ≡ (
        admits settings.access_policy identity
        && (not remote
            || settings.remote_enabled && not (str_eq settings.access_policy "local-only")))
unfolding authorize_mcp_access
authorize_mcp_access-ok_iff identity settings remote = ground (
  arith,
  apart settings.access_policy "local-only" "authenticated" refl,
  apart settings.access_policy "local-only" "admin-only" refl,
  apart settings.access_policy "local-only" "disabled" refl,
)

-- A listed permission is risky unless it is "read".
listed_risky :
    (n : String)
    → member n mcp_permissions ≡ true
    → member n risky_mcp_permissions ≡ not (str_eq n "read")
unfolding member
listed_risky n h = elim (Bool-cases (str_eq "read" n)) [
  | inl e ↦ rw (← (eq_iff "read" n).0 e)
  | inr e ↦ ground (arith, eq_iff n "read", eq_iff "read" n)
]

-- A permission that is not risky is "read".
known_risky :
    (p : String)
    → member (known_permission p) risky_mcp_permissions ≡ not (str_eq (known_permission p) "read")
unfolding member
known_risky p = elim (Bool-cases (str_eq p "safe")) [
  | inl e ↦ rw e
  | inr e ↦ elim (Bool-cases (member p mcp_permissions)) [
    | inl m ↦ rw (e, m) (listed_risky p m)
    | inr m ↦ rw (e, m)
  ]
]

read_safe : member "read" risky_mcp_permissions ≡ false
unfolding member
read_safe = refl

normalized_risky :
    (lower : String → String) (permission : Option String)
    → member (normalize_mcp_permission lower permission) risky_mcp_permissions
      ≡ not (str_eq (normalize_mcp_permission lower permission) "read")
unfolding normalize_mcp_permission
normalized_risky lower none = rw read_safe
normalized_risky lower (some p) = elim (Bool-cases (str_eq p "")) [
  | inl e ↦ rw e (rw read_safe)
  | inr e ↦ rw e (known_risky (lower (strip p)))
]

-- The confirmation rule: a tool needs a confirmation exactly when it says so or its permission is
-- not "read". The setting `mcp_require_confirmation_by_default` never decides.
pub requires_mcp_confirmation-eq :
    (lower : String → String) (permission : Option String) (explicit : Bool)
    (settings : McpSettings)
    → requires_mcp_confirmation lower permission explicit settings
      ≡ (explicit || not (str_eq (normalize_mcp_permission lower permission) "read"))
unfolding requires_mcp_confirmation
requires_mcp_confirmation-eq lower permission explicit settings =
    ground (arith, normalized_risky lower permission)

-- A tool call passes the policy exactly when the access check passes and the call is confirmed or
-- needs no confirmation.
pub enforce_mcp_tool_policy-ok_iff :
    (lower : String → String) (permission : Option String) (explicit confirmed : Bool)
    (identity : McpIdentity) (settings defaults : McpSettings) (remote : Bool)
    → is_ok (
        enforce_mcp_tool_policy lower permission explicit confirmed identity settings defaults
          remote)
      ≡ (is_ok (authorize_mcp_access identity settings remote)
          && (confirmed
              || not explicit && str_eq (normalize_mcp_permission lower permission) "read"))
unfolding enforce_mcp_tool_policy
enforce_mcp_tool_policy-ok_iff lower permission explicit confirmed identity settings defaults
      remote =
    ground (arith, requires_mcp_confirmation-eq lower permission explicit defaults)

-- A fetch URL passes exactly when its scheme is http or https, it names a host, the host is none of
-- the blocked names or below ".localhost", and it is no literal address of a blocked kind.
pub validate_mcp_fetch_url-ok_iff :
    (lower bare : String → String) (local_name : String → Bool) (address : String → Option Bool)
    (scheme host : String)
    → is_ok (
        validate_mcp_fetch_url lower bare local_name address
          (record { scheme = scheme; hostname = some host }))
      ≡ (web_scheme (lower scheme)
          && not (str_eq host "")
          && not (
              str_eq (bare host) "localhost"
              || str_eq (bare host) "metadata.google.internal"
              || local_name (bare host))
          && address_allowed (address (bare host)))
unfolding validate_mcp_fetch_url member
validate_mcp_fetch_url-ok_iff lower bare local_name address scheme host = ground (
  arith,
  eq_iff "localhost" (bare host),
  eq_iff (bare host) "localhost",
  eq_iff "metadata.google.internal" (bare host),
  eq_iff (bare host) "metadata.google.internal",
)
