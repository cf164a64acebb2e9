-- ===== src/Validation/Gate.antt =====
-- validation.py: page sizes, and which tools and groups the configuration allows
pub mod Laws
use cisco_ise_mcp.Prelude.{
  Bool, List, Option, [], false, if◌then◌else◌, is_empty, none, not, some, true, ◌&&◌, ◌++◌, ◌∷◌,
}
use cisco_ise_mcp.Config.Record.{Config, is_readonly}
use cisco_ise_mcp.Errors.{Result, err, ok, tool_disabled, validation_error, write_not_allowed}
use cisco_ise_mcp.Prelude.Int.{max_ℤ, min_ℤ, pos, ℤ}
use cisco_ise_mcp.Text.{Text, contains, lit}

abbrev pub write_tools : List Text
write_tools =
    lit "ise_create_endpoint"
    ∷ lit "ise_update_endpoint"
    ∷ lit "ise_delete_endpoint"
    ∷ lit "ise_assign_endpoint_group"
    ∷ []

abbrev pub dangerous_tools : List Text
dangerous_tools = lit "ise_delete_endpoint" ∷ []

abbrev requested_or : ℤ → Option ℤ → ℤ
requested_or default none = default
requested_or default (some n) = n

unfoldable pub clamp_page_size : Config → Option ℤ → ℤ
clamp_page_size cfg requested =
    max_ℤ (pos 1) (min_ℤ (requested_or cfg.default_page_size requested) cfg.max_page_size)

unfoldable pub is_tool_enabled : Config → Text → Bool
is_tool_enabled cfg tool =
    if not (is_empty cfg.disabled_tools) && contains cfg.disabled_tools tool
    then false
    else if not (is_empty cfg.allowed_tools)
    then contains cfg.allowed_tools tool
    else true

unfoldable pub assert_tool_enabled : Config → Text → Result (Unit {0})
assert_tool_enabled cfg tool =
    if not (is_tool_enabled cfg tool)
    then err (tool_disabled (lit "Tool '" ++ (tool ++ lit "' is disabled by configuration")))
    else ok tt

unfoldable pub assert_write_allowed : Config → Text → Result (Unit {0})
unfolding assert_tool_enabled
assert_write_allowed cfg tool = elim (assert_tool_enabled cfg tool) [
  | err e ↦ err e
  | ok u ↦
      if contains write_tools tool && is_readonly cfg
      then err (
          write_not_allowed (
            lit "Tool '" ++ (tool ++ lit "' requires ISE_MCP_MODE=readwrite (server is readonly)")))
      else if contains dangerous_tools tool && not cfg.enable_dangerous_tools
      then err (
          write_not_allowed
            (lit "Tool '" ++ (tool ++ lit "' requires ISE_ENABLE_DANGEROUS_TOOLS=true")))
      else ok tt
]

unfoldable pub assert_group_allowed : Config → Option Text → Result (Unit {0})
assert_group_allowed cfg none = ok tt
assert_group_allowed cfg (some group) =
    if not (is_empty group)
      && (not (is_empty cfg.allowed_endpoint_groups)
          && not (contains cfg.allowed_endpoint_groups group))
    then err (
        validation_error
          (lit "Endpoint group '" ++ (group ++ lit "' not in ISE_ALLOWED_ENDPOINT_GROUPS")))
    else ok tt
