-- ===== src/Validation/Gate/Laws.antt =====
-- What the gates let through.
use cisco_ise_mcp.Prelude.{Option, [], arith, false, none, some, true, ◌↔◌, ◌≡◌, ◌⊎◌}
use cisco_ise_mcp.Config.Record.{Config, is_readonly}
use cisco_ise_mcp.Errors.{ok}
use cisco_ise_mcp.Prelude.Int.{pos, ℤ, ◌≤ℤ◌}
use cisco_ise_mcp.Text.{Text, contains, lit, lower}
use cisco_ise_mcp.Text.Laws.{==_iff}
use cisco_ise_mcp.Validation.Gate.{
  assert_write_allowed, clamp_page_size, dangerous_tools, is_tool_enabled, write_tools,
}

-- A requested page size is never below 1, nor above the maximum where that is at least 1.
pub clamp_page_size_bounds :
    (cfg : Config) (requested : Option ℤ)
    → (pos 1 ≤ℤ clamp_page_size cfg requested)
      × (pos 1 ≤ℤ cfg.max_page_size → clamp_page_size cfg requested ≤ℤ cfg.max_page_size)
unfolding clamp_page_size
clamp_page_size_bounds cfg none = ground arith
clamp_page_size_bounds cfg (some n) = ground arith

-- A size within the bounds is kept.
pub clamp_page_size_kept :
    (cfg : Config) (n : ℤ) → pos 1 ≤ℤ n → n ≤ℤ cfg.max_page_size → clamp_page_size cfg (some n) ≡ n
unfolding clamp_page_size
clamp_page_size_kept cfg n h k = ground arith

-- When a tool may write, in terms of the settings alone.
pub record MayWrite (cfg : Config) (tool : Text) : Type 0 where
  pub not_disabled : contains cfg.disabled_tools tool ≡ false
  pub listed : (cfg.allowed_tools ≡ []) ⊎ (contains cfg.allowed_tools tool ≡ true)
  pub writable : (contains write_tools tool ≡ false) ⊎ (lower cfg.mcp_mode ≡ lit "readwrite")
  pub danger : (contains dangerous_tools tool ≡ false) ⊎ (cfg.enable_dangerous_tools ≡ true)

pub enabled_iff :
    (cfg : Config) (tool : Text)
    → (is_tool_enabled cfg tool ≡ true) ↔ (
        (contains cfg.disabled_tools tool ≡ false)
        × ((cfg.allowed_tools ≡ []) ⊎ (contains cfg.allowed_tools tool ≡ true)))
unfolding is_tool_enabled contains
enabled_iff cfg tool = ground arith

-- The gate for a write lets a tool through exactly if the tool is not disabled, is allowed where only
-- some are, may write (it is none of the tools that write, or the server is in read-write mode), and,
-- if it is dangerous, dangerous tools are enabled.
pub assert_write_allowed_iff :
    (cfg : Config) (tool : Text) → (assert_write_allowed cfg tool ≡ ok tt) ↔ MayWrite cfg tool
unfolding assert_write_allowed is_readonly
assert_write_allowed_iff cfg tool = (
  λ h. ground (arith, enabled_iff cfg tool, ==_iff (lower cfg.mcp_mode) (lit "readwrite")),
  λ m. ground (arith, enabled_iff cfg tool, ==_iff (lower cfg.mcp_mode) (lit "readwrite")),
)
