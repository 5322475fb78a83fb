-- ===== src/McpSecurity.antt =====
-- backend/app/core/mcp_security.py: who may use MCP, which tools need a confirmation, and the
-- removal of secrets from configurations.
pub mod Access
pub mod Secrets
use agent_demo.Prelude.{
  ℕ, String, Bool, true, false, not, ◌&&◌, ◌||◌, Option, none, some, List, [], ◌∷◌, is_some,
  if◌then◌else◌, str_eq, strip, member, contains_any,
}
use agent_demo.Json.{Json, null, bool, number, text, arr, obj, Items, nil, cons, Fields, end, field}
use agent_demo.Outcome.{Error, http, Result, ok, err, ◌>>=◌, ◌>>◌, guard}

pub record McpIdentity : Type 0 where
  pub user_id : Option ℕ
  pub service_id : Option String
  pub is_admin : Bool

pub record McpSettings : Type 0 where
  pub access_policy : String
  pub remote_enabled : Bool
  pub confirmation_by_default : Bool

-- `bool(self.service_id)`
abbrev has_text : Option String → Bool
has_text none = false
has_text (some s) = not (str_eq s "")

abbrev pub is_bound : McpIdentity → Bool
is_bound identity = is_some identity.user_id || has_text identity.service_id

unfoldable pub authorize_mcp_access : McpIdentity → McpSettings → Bool → Result (Unit {0})
authorize_mcp_access identity settings remote =
    if str_eq settings.access_policy "disabled"
    then err (http 403 "MCP access is disabled")
    else if remote && not settings.remote_enabled
    then err (http 403 "Remote MCP access is disabled")
    else if str_eq settings.access_policy "local-only"
    then if remote then err (http 403 "MCP access is local-only") else ok tt
    else if str_eq settings.access_policy "authenticated" && not (is_bound identity)
    then err (http 401 "MCP identity is required")
    else if str_eq settings.access_policy "admin-only" && not identity.is_admin
    then err (http 403 "MCP admin access is required")
    else ok tt

abbrev mcp_permissions : List String
mcp_permissions = "read" ∷ "write" ∷ "execute" ∷ "network" ∷ "destructive" ∷ []

abbrev pub risky_mcp_permissions : List String
risky_mcp_permissions = "write" ∷ "execute" ∷ "network" ∷ "destructive" ∷ []

abbrev secret_field_markers : List String
secret_field_markers = "key" ∷ "secret" ∷ "token" ∷ "password" ∷ "credential" ∷ "authorization" ∷ []

abbrev redacted : String
redacted = "***REDACTED***"

abbrev known_permission : String → String
known_permission normalized =
    if str_eq normalized "safe"
    then "read"
    else if not (member normalized mcp_permissions)
    then "execute"
    else normalized

-- `lower` is Python's `str.lower`.
module _ (lower : String → String) where
  unfoldable pub normalize_mcp_permission : Option String → String
  normalize_mcp_permission none = "read"
  normalize_mcp_permission (some permission) =
      if str_eq permission "" then "read" else known_permission (lower (strip permission))

  unfoldable pub requires_mcp_confirmation : Option String → Bool → McpSettings → Bool
  requires_mcp_confirmation permission explicit settings =
      let normalized = normalize_mcp_permission permission in
      if explicit
      then true
      else if member normalized risky_mcp_permissions
      then true
      else settings.confirmation_by_default && not (str_eq normalized "read")

  -- The access check has the caller's settings, the confirmation check the process's.
  unfoldable pub enforce_mcp_tool_policy :
      Option String
      → Bool
      → Bool
      → McpIdentity
      → McpSettings
      → McpSettings
      → Bool
      → Result (Unit {0})
  enforce_mcp_tool_policy permission explicit confirmed identity settings defaults remote = do
    authorize_mcp_access identity settings remote
    guard (not (requires_mcp_confirmation permission explicit defaults) || confirmed)
        (http 409 "MCP tool requires confirmation before execution")

  unfoldable pub looks_secret_key : String → Bool
  looks_secret_key key = contains_any secret_field_markers (lower key)

-- `secret` is `_looks_secret_key`.
mutual
  pub scrub_mcp_config : (String → Bool) → Json → Json
  scrub_mcp_config secret null = null
  scrub_mcp_config secret (bool b) = bool b
  scrub_mcp_config secret (number n) = number n
  scrub_mcp_config secret (text s) = text s
  scrub_mcp_config secret (arr xs) = arr (scrub_items secret xs)
  scrub_mcp_config secret (obj fs) = obj (scrub_fields secret fs)

  scrub_items : (String → Bool) → Items → Items
  scrub_items secret nil = nil
  scrub_items secret (cons x xs) = cons (scrub_mcp_config secret x) (scrub_items secret xs)

  scrub_fields : (String → Bool) → Fields → Fields
  scrub_fields secret end = end
  scrub_fields secret (field k v fs) =
      field k (if secret k then text redacted else scrub_mcp_config secret v)
        (scrub_fields secret fs)

-- `reference` is the match of a stripped text against `${NAME}`, with or without "Bearer".
unfoldable pub is_safe_secret_reference : (String → Bool) → Json → Bool
is_safe_secret_reference reference null = true
is_safe_secret_reference reference (text s) =
    str_eq s "" || str_eq s redacted || reference (strip s)
is_safe_secret_reference reference _ = false

mutual
  pub contains_plaintext_mcp_secret : (String → Bool) → (String → Bool) → Json → Bool
  contains_plaintext_mcp_secret secret reference null = false
  contains_plaintext_mcp_secret secret reference (bool b) = false
  contains_plaintext_mcp_secret secret reference (number n) = false
  contains_plaintext_mcp_secret secret reference (text s) = false
  contains_plaintext_mcp_secret secret reference (arr xs) = any_plaintext secret reference xs
  contains_plaintext_mcp_secret secret reference (obj fs) = field_plaintext secret reference fs

  any_plaintext : (String → Bool) → (String → Bool) → Items → Bool
  any_plaintext secret reference nil = false
  any_plaintext secret reference (cons x xs) =
      contains_plaintext_mcp_secret secret reference x || any_plaintext secret reference xs

  field_plaintext : (String → Bool) → (String → Bool) → Fields → Bool
  field_plaintext secret reference end = false
  field_plaintext secret reference (field k v fs) =
      secret k && not (is_safe_secret_reference reference v)
      || contains_plaintext_mcp_secret secret reference v
      || field_plaintext secret reference fs

-- What `urlparse` and `ip_address` say of a URL; `is_local` joins the six tests on the address.
pub record ParsedUrl : Type 0 where
  pub scheme : String
  pub hostname : Option String

abbrev web_scheme : String → Bool
web_scheme s = str_eq s "http" || str_eq s "https"

-- `bare` is `rstrip(".").lower()`, `local_name` the test `endswith(".localhost")`, and `address`
-- tells for a literal IP address whether any of the six tests on it holds.
check_host :
    (String → String) → (String → Bool) → (String → Option Bool) → String → Result (Unit {0})
check_host bare local_name address host =
    if member (bare host) ("localhost" ∷ "metadata.google.internal" ∷ []) || local_name (bare host)
    then err (http 403 "Fetch URL targets a blocked local host")
    else elim (address (bare host)) [
      | none ↦ ok tt
      | some true ↦ err (http 403 "Fetch URL targets a blocked local or private address")
      | some false ↦ ok tt
    ]

check_hostname :
    (String → String) → (String → Bool) → (String → Option Bool) → Option String → Result (Unit {0})
unfolding check_host
check_hostname bare local_name address none = err (http 422 "Fetch URL must include a host")
check_hostname bare local_name address (some host) =
    if str_eq host ""
    then err (http 422 "Fetch URL must include a host")
    else check_host bare local_name address host

unfoldable pub validate_mcp_fetch_url :
    (String → String)
    → (String → String)
    → (String → Bool)
    → (String → Option Bool)
    → ParsedUrl
    → Result (Unit {0})
unfolding check_hostname
validate_mcp_fetch_url lower bare local_name address url =
    if not (web_scheme (lower url.scheme))
    then err (http 422 "Fetch URL must use http or https")
    else check_hostname bare local_name address url.hostname
