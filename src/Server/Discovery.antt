-- ===== src/Server/Discovery.antt =====
-- server.py: /healthz and the documents of /.well-known
use cisco_ise_mcp.Prelude.{List, [], map, ◌++◌, ◌∷◌}
use cisco_ise_mcp.Config.Record.{Config}
use cisco_ise_mcp.Server.{Answer, HttpCall, base_url_from_scope, json_page}
use cisco_ise_mcp.Text.{Text, lit}
use cisco_ise_mcp.Value.{Value, arr, dict, items, str}

abbrev texts : List Text → Value
texts ts = arr (items (map str ts))

-- `_healthz(request)`
unfoldable pub healthz : Config → Answer
healthz cfg =
    json_page 200 [] (dict ((lit "status", str (lit "ok")) ∷ (lit "mode", str cfg.mcp_mode) ∷ []))

-- `_prm(request)`
unfoldable pub protected_resource : Config → HttpCall → Answer
unfolding base_url_from_scope
protected_resource cfg call =
    let base = base_url_from_scope call.headers in
    json_page 200 [] (
      dict (
        (lit "resource", str (base ++ lit "/mcp"))
        ∷ (lit "authorization_servers", texts (base ∷ []))
        ∷ (lit "scopes_supported", texts (cfg.oauth_scopes ∷ []))
        ∷ []))

-- `_asm(request)`
unfoldable pub authorization_server : Config → HttpCall → Answer
unfolding base_url_from_scope
authorization_server cfg call =
    let base = base_url_from_scope call.headers in
    json_page 200 [] (
      dict (
        (lit "issuer", str base)
        ∷ (lit "authorization_endpoint", str (base ++ lit "/authorize"))
        ∷ (lit "token_endpoint", str (base ++ lit "/token"))
        ∷ (lit "response_types_supported", texts (lit "code" ∷ []))
        ∷ (
          lit "grant_types_supported",
          texts (lit "authorization_code" ∷ lit "refresh_token" ∷ lit "client_credentials" ∷ []),
        )
        ∷ (lit "code_challenge_methods_supported", texts (lit "S256" ∷ []))
        ∷ (
          lit "token_endpoint_auth_methods_supported",
          texts (lit "client_secret_post" ∷ lit "client_secret_basic" ∷ []),
        )
        ∷ (lit "scopes_supported", texts (cfg.oauth_scopes ∷ []))
        ∷ []))
