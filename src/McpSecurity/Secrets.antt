-- ===== src/McpSecurity/Secrets.antt =====
-- The removal of secrets from configurations.
use agent_demo.Prelude.{◌≡◌, refl, String, Bool, true, false, arith, Bool-cases, inl, inr, ap}
use agent_demo.Json.{Json, null, bool, number, text, arr, obj, Items, nil, cons, Fields, end, field}
use agent_demo.McpSecurity.{
  scrub_mcp_config, scrub_items, scrub_fields, redacted, is_safe_secret_reference,
  contains_plaintext_mcp_secret, any_plaintext, field_plaintext,
}

redacted_safe :
    (reference : String → Bool) → is_safe_secret_reference reference (text redacted) ≡ true
unfolding is_safe_secret_reference
redacted_safe reference = refl

mutual
  unfolding scrub_mcp_config scrub_items scrub_fields contains_plaintext_mcp_secret any_plaintext
      field_plaintext

  scrubbed :
      (secret reference : String → Bool) (j : Json)
      → contains_plaintext_mcp_secret secret reference (scrub_mcp_config secret j) ≡ false
  scrubbed secret reference null = refl
  scrubbed secret reference (bool b) = refl
  scrubbed secret reference (number n) = refl
  scrubbed secret reference (text s) = refl
  scrubbed secret reference (arr xs) = scrubbed_items secret reference xs
  scrubbed secret reference (obj fs) = scrubbed_fields secret reference fs

  scrubbed_items :
      (secret reference : String → Bool) (xs : Items)
      → any_plaintext secret reference (scrub_items secret xs) ≡ false
  scrubbed_items secret reference nil = refl
  scrubbed_items secret reference (cons x xs) =
      ground (arith, scrubbed secret reference x, scrubbed_items secret reference xs)

  scrubbed_fields :
      (secret reference : String → Bool) (fs : Fields)
      → field_plaintext secret reference (scrub_fields secret fs) ≡ false
  scrubbed_fields secret reference end = refl
  scrubbed_fields secret reference (field k v fs) = elim (Bool-cases (secret k)) [
    | inl e ↦ rw e (ground (arith, redacted_safe reference, scrubbed_fields secret reference fs))
    | inr e ↦
        rw e (ground (arith, scrubbed secret reference v, scrubbed_fields secret reference fs))
  ]

mutual
  unfolding scrub_mcp_config scrub_items scrub_fields

  scrub_idem :
      (secret : String → Bool) (j : Json)
      → scrub_mcp_config secret (scrub_mcp_config secret j) ≡ scrub_mcp_config secret j
  scrub_idem secret null = refl
  scrub_idem secret (bool b) = refl
  scrub_idem secret (number n) = refl
  scrub_idem secret (text s) = refl
  scrub_idem secret (arr xs) = ap arr (scrub_items_idem secret xs)
  scrub_idem secret (obj fs) = ap obj (scrub_fields_idem secret fs)

  scrub_items_idem :
      (secret : String → Bool) (xs : Items)
      → scrub_items secret (scrub_items secret xs) ≡ scrub_items secret xs
  scrub_items_idem secret nil = refl
  scrub_items_idem secret (cons x xs) = cc (scrub_idem secret x, scrub_items_idem secret xs)

  scrub_fields_idem :
      (secret : String → Bool) (fs : Fields)
      → scrub_fields secret (scrub_fields secret fs) ≡ scrub_fields secret fs
  scrub_fields_idem secret end = refl
  scrub_fields_idem secret (field k v fs) = elim (Bool-cases (secret k)) [
    | inl e ↦ simp e (cc (scrub_fields_idem secret fs))
    | inr e ↦ simp e (cc (scrub_idem secret v, scrub_fields_idem secret fs))
  ]

-- A scrubbed configuration holds no plaintext secret, whatever keys count as secret and whatever
-- counts as a reference; scrubbing it again changes nothing.
pub scrub_mcp_config-safe :
    (secret reference : String → Bool) (j : Json)
    → (contains_plaintext_mcp_secret secret reference (scrub_mcp_config secret j) ≡ false)
      × (scrub_mcp_config secret (scrub_mcp_config secret j) ≡ scrub_mcp_config secret j)
scrub_mcp_config-safe secret reference j = (scrubbed secret reference j, scrub_idem secret j)
