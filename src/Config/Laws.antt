-- ===== src/Config/Laws.antt =====
-- What a configuration that was loaded and validated guarantees.
use cisco_ise_mcp.Prelude.{[], arith, false, is_empty, true, ◌↔◌, ◌∷◌, ◌≡◌, ◌⊎◌}
use cisco_ise_mcp.Config.Record.{Config}
use cisco_ise_mcp.Config.Validate.{has_account, has_service_credentials, validate}
use cisco_ise_mcp.Errors.{ok}
use cisco_ise_mcp.Prelude.Int.{◌≤ℤ◌}
use cisco_ise_mcp.Text.{Text, contains, lit, lower}
use cisco_ise_mcp.Text.Laws.{==_iff}

-- What the server relies on after `validate`.
pub record IsUsable (cfg : Config) : Type 0 where
  pub auth_mode : (cfg.auth_mode ≡ lit "passthrough") ⊎ (cfg.auth_mode ≡ lit "service_account")
  pub mcp_mode : (lower cfg.mcp_mode ≡ lit "readonly") ⊎ (lower cfg.mcp_mode ≡ lit "readwrite")
  pub base_url : is_empty cfg.ise_base_url ≡ false
  pub service_credentials :
      cfg.auth_mode ≡ lit "service_account" → has_service_credentials cfg ≡ true
  pub page_sizes : cfg.default_page_size ≤ℤ cfg.max_page_size
  pub api_key_account : is_empty cfg.api_keys ≡ false → has_account cfg ≡ true

contains_two : (a b x : Text) → (contains (a ∷ b ∷ []) x ≡ true) ↔ ((x ≡ a) ⊎ (x ≡ b))
unfolding contains
contains_two a b x = ground (arith, ==_iff x a, ==_iff x b)

validate_sound : (cfg : Config) → validate cfg ≡ ok tt → IsUsable cfg
unfolding validate
validate_sound cfg h = ground (
  arith,
  contains_two (lit "passthrough") (lit "service_account") cfg.auth_mode,
  contains_two (lit "readonly") (lit "readwrite") (lower cfg.mcp_mode),
  ==_iff cfg.auth_mode (lit "service_account"),
)

validate_complete : (cfg : Config) → IsUsable cfg → validate cfg ≡ ok tt
unfolding validate
validate_complete cfg u = ground (
  arith,
  contains_two (lit "passthrough") (lit "service_account") cfg.auth_mode,
  contains_two (lit "readonly") (lit "readwrite") (lower cfg.mcp_mode),
  ==_iff cfg.auth_mode (lit "service_account"),
)

-- `validate` returns exactly for the usable configurations: it raises for every other.
pub validate_iff : (cfg : Config) → (validate cfg ≡ ok tt) ↔ IsUsable cfg
validate_iff cfg = (validate_sound cfg, validate_complete cfg)
