-- ===== src/Server/Gate.antt =====
-- server.py: `RequireAuthOnMcp`
pub mod Laws
pub mod Headers
-- `_sid(headers)`
use cisco_ise_mcp.Prelude.{
  Bool, Option, [], drop, false, if◌then◌else◌, refl, some, take, true, ◌&&◌, ◌++◌, ◌∷◌, ◌≡◌,
}
use cisco_ise_mcp.Config.Record.{Config, default_config}
use cisco_ise_mcp.Dict.{Dict, insert, lookup}
use cisco_ise_mcp.Exec.{Exec, pure, ◌>>=◌, ◌>>◌}
use cisco_ise_mcp.Server.{Answer, HttpCall, base_url_from_scope, get_text, headers_of, raw_answer}
use cisco_ise_mcp.Text.{Text, is_space, lit, lower, or_else, rstrip_slash, strip, truthy, ◌==◌}
use cisco_ise_mcp.Tools.{Deps, session_valid}
use cisco_ise_mcp.Value.{dict, str}

unfoldable pub sid_of : Config → Dict Text → Option Text
unfolding lower
sid_of cfg headers =
    let sid =
      or_else (lookup (lit "x-api-key") headers) (lookup (lower cfg.session_header) headers) in
    let authz = get_text headers (lit "authorization") in
    if truthy sid
    then sid
    else if lower (take 7 authz) == lit "bearer "
    then some (strip (drop 7 authz))
    else sid

-- The condition of `__call__`: which calls need a session.
unfoldable pub is_guarded : Config → HttpCall → Bool
is_guarded cfg call =
    call.type == lit "http"
    && (rstrip_slash call.path == lit "/mcp" && cfg.auth_mode == lit "passthrough")

unfoldable pub unauthorized : HttpCall → Answer
unfolding base_url_from_scope
unauthorized call =
    raw_answer 401
      ((lit "content-type", lit "application/json")
        ∷ (
          lit "www-authenticate",
          lit "Bearer resource_metadata="
              ++ (34
                  ∷ (base_url_from_scope call.headers
                      ++ (lit "/.well-known/oauth-protected-resource" ++ 34 ∷ []))),
        )
        ∷ [])
      (dict (
        (lit "error", str (lit "unauthorized"))
        ∷ (lit "error_description", str (lit "Authenticate to use the ISE MCP tools"))
        ∷ []))

abbrev pub let_through : HttpCall → Exec Answer → Bool → Exec Answer
let_through call app true = app
let_through call app false = pure (unauthorized call)

-- `__call__`, where `app` is the application behind the gate
unfoldable pub require_auth : Deps → Exec Answer → HttpCall → Exec Answer
unfolding ◌>>=◌ session_valid headers_of sid_of
require_auth deps app call =
    if is_guarded deps.cfg call
    then (do
      valid ← session_valid deps (sid_of deps.cfg (headers_of call.headers))
      let_through call app valid)
    else app

gate_test :
    sid_of default_config (headers_of ((lit "Authorization", lit "BEARER  abc ") ∷ []))
    ≡ some (lit "abc")
unfolding sid_of headers_of insert lower strip default_config lit ◌==◌ is_space lookup
gate_test = refl
