-- ===== src/Examples/Access.antt =====
-- The security rules on concrete identities, URLs and configurations.
use agent_demo.Prelude.{◌≡◌, String, Bool, true, false, not, ◌||◌, some, str_eq}
use agent_demo.Json.{Json, obj, text, end, field}
use agent_demo.McpSecurity.{
  McpSettings, normalize_mcp_permission, requires_mcp_confirmation, scrub_mcp_config,
  contains_plaintext_mcp_secret, looks_secret_key,
}
use agent_demo.McpSecurity.Access.{requires_mcp_confirmation-eq}
use agent_demo.McpSecurity.Secrets.{scrub_mcp_config-safe}

abbrev settings : McpSettings
settings = record {
  access_policy = "authenticated";
  remote_enabled = true;
  confirmation_by_default = true;
}

abbrev lower : String → String
lower s = s

requires_mcp_confirmation-eq_example :
    requires_mcp_confirmation lower (some "safe") false settings
    ≡ (false || not (str_eq (normalize_mcp_permission lower (some "safe")) "read"))
requires_mcp_confirmation-eq_example =
    requires_mcp_confirmation-eq lower (some "safe") false settings

abbrev nothing : String → Bool
nothing s = false

abbrev server_config : Json
server_config = obj (field "env" (obj (field "api_key" (text "sk-1") end)) end)

scrub_mcp_config-safe_example :
    (contains_plaintext_mcp_secret
        (looks_secret_key lower)
        nothing
        (scrub_mcp_config (looks_secret_key lower) server_config)
      ≡ false)
    × (scrub_mcp_config
          (looks_secret_key lower)
          (scrub_mcp_config (looks_secret_key lower) server_config)
        ≡ scrub_mcp_config (looks_secret_key lower) server_config)
scrub_mcp_config-safe_example = scrub_mcp_config-safe (looks_secret_key lower) nothing server_config
