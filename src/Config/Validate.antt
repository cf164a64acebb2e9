-- ===== src/Config/Validate.antt =====
-- config.py: `Config.validate`, whose `raise` statements are the error results in their order
use cisco_ise_mcp.Prelude.{Bool, [], if◌then◌else◌, is_empty, not, ◌&&◌, ◌++◌, ◌||◌, ◌∷◌}
use cisco_ise_mcp.Config.Record.{Config}
use cisco_ise_mcp.Errors.{Result, err, ok, python_error}
use cisco_ise_mcp.Prelude.Int.{ltb_ℤ}
use cisco_ise_mcp.Text.{Text, contains, lit, lower, ◌==◌}

abbrev value_error : Text → Result (Unit {0})
value_error m = err (python_error (lit "ValueError") m)

-- `self.ise_username and self.ise_password`
abbrev pub has_account : Config → Bool
has_account cfg = not (is_empty cfg.ise_username) && not (is_empty cfg.ise_password)

abbrev pub has_service_credentials : Config → Bool
has_service_credentials cfg = not (is_empty cfg.ise_encoded_auth) || has_account cfg

unfoldable pub validate : Config → Result (Unit {0})
validate cfg =
    if not (contains (lit "passthrough" ∷ lit "service_account" ∷ []) cfg.auth_mode)
    then value_error (lit "Unsupported ISE_AUTH_MODE: " ++ cfg.auth_mode)
    else if not (contains (lit "readonly" ∷ lit "readwrite" ∷ []) (lower cfg.mcp_mode))
    then value_error (lit "Unsupported ISE_MCP_MODE: " ++ cfg.mcp_mode)
    else if is_empty cfg.ise_base_url
    then value_error (lit "ISE_BASE_URL is required")
    else if (cfg.auth_mode == lit "service_account") && not (has_service_credentials cfg)
    then value_error
        (lit "service_account mode requires ISE_USERNAME+ISE_PASSWORD or ISE_ENCODED_AUTH")
    else if ltb_ℤ cfg.max_page_size cfg.default_page_size
    then value_error (lit "ISE_MAX_PAGE_SIZE must be >= ISE_DEFAULT_PAGE_SIZE")
    else if not (is_empty cfg.api_keys) && not (has_account cfg)
    then value_error (
        lit "MCP_API_KEYS requires ISE_USERNAME and ISE_PASSWORD (the fixed read-only "
        ++ lit "account those tokens map to)")
    else ok tt
