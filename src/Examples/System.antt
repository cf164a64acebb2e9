-- ===== src/Examples/System.antt =====
-- Runs of the whole server.
use cisco_ise_mcp.Prelude.{All, List, [], false, refl, some, true, ℕ, ◌∷◌, ◌≡◌}
use cisco_ise_mcp.Auth.Context.{AuthContext}
use cisco_ise_mcp.Auth.Provider.{passthrough, resolve}
use cisco_ise_mcp.Auth.Session.{is_expired}
use cisco_ise_mcp.Config.Record.{default_config, is_readonly}
use cisco_ise_mcp.Dict.{insert, lookup}
use cisco_ise_mcp.Errors.{ok}
use cisco_ise_mcp.Examples.{sample_env, sample_identity}
use cisco_ise_mcp.Examples.Server.{call_with, login_form, server_cfg, token_form}
use cisco_ise_mcp.Exec.{asks, ◌>>=◌}
use cisco_ise_mcp.Exec.Reads.{IsGet}
use cisco_ise_mcp.Oauth.RoundTrip.{stored_code}
use cisco_ise_mcp.Server.{Answer, plain_page}
use cisco_ise_mcp.Server.Gate.Laws.{by_session}
use cisco_ise_mcp.Server.Token.{token_endpoint}
use cisco_ise_mcp.System.{Reach, at_start, during, serve, served, start, submit_event, token_event}
use cisco_ise_mcp.System.Callers.{IsAdmitted, admit-IsAdmitted, resolve-same}
use cisco_ise_mcp.System.ReadOnly.{Reach-OnlyGets}
use cisco_ise_mcp.System.Runs.{HasHistory, Reach-HasHistory}
use cisco_ise_mcp.Text.{Text, contains, is_space, lit, lower, strip, ◌==◌}
use cisco_ise_mcp.Tools.{admit, gate, mcp_session_id, resolve_auth}
use cisco_ise_mcp.Validation.Gate.{is_tool_enabled}
use cisco_ise_mcp.Value.{Value}
use cisco_ise_mcp.World.{AuthCode, World}

abbrev plain : Value → Answer
plain v = plain_page 200 []

-- The world after a login at /token, and after a sign-in at /authorize.
abbrev logged_in : World
logged_in =
    serve plain (by_session server_cfg) sample_env (token_event (call_with token_form))
      (start server_cfg)

abbrev signed_in : World
signed_in =
    serve plain (by_session server_cfg) sample_env (submit_event (call_with login_form))
      (start server_cfg)

logged_in-reached : Reach plain (by_session server_cfg) sample_env (start server_cfg) logged_in
logged_in-reached = served at_start (token_event (call_with token_form))

Reach-HasHistory_example : HasHistory server_cfg sample_env logged_in
Reach-HasHistory_example =
    Reach-HasHistory plain (by_session server_cfg) sample_env logged_in logged_in-reached

abbrev key_headers : List (Text × Text)
key_headers = (lit "X-API-Key", 116 ∷ 0 ∷ []) ∷ []

is_admitted :
    (admit
      (by_session server_cfg)
      (lit "ise_whoami")
      false
      (during sample_env key_headers)
      logged_in).0
    ≡ ok sample_identity
unfolding serve start admit token_endpoint ◌>>=◌ asks lit ◌==◌ lookup strip is_space gate
    resolve_auth default_config lower contains mcp_session_id is_tool_enabled insert is_expired
is_admitted = refl

admit-IsAdmitted_example :
    IsAdmitted server_cfg
      (lit "ise_whoami")
      false
      (mcp_session_id (during sample_env key_headers).request_headers server_cfg.session_header)
      sample_env
      logged_in
      sample_identity
admit-IsAdmitted_example =
    admit-IsAdmitted plain server_cfg sample_env logged_in logged_in-reached key_headers
      (lit "ise_whoami") false sample_identity is_admitted

tokens_apart : (a b : ℕ) → sample_env.token_urlsafe a ≡ sample_env.token_urlsafe b → a ≡ b
tokens_apart a b h = cc

resolves_before :
    (resolve passthrough (some (116 ∷ 0 ∷ [])) (during sample_env []) logged_in).0
    ≡ ok sample_identity
unfolding serve start token_endpoint ◌>>=◌ asks lit ◌==◌ lookup strip is_space resolve insert
    is_expired default_config
resolves_before = refl

abbrev later_on : World
later_on =
    serve plain (by_session server_cfg) sample_env (token_event (call_with token_form)) logged_in

resolves_after :
    (resolve passthrough (some (116 ∷ 0 ∷ [])) (during sample_env []) later_on).0
    ≡ ok sample_identity
unfolding serve start token_endpoint ◌>>=◌ asks lit ◌==◌ lookup strip is_space resolve insert
    is_expired default_config
resolves_after = refl

resolve-same_example : ◌≡◌ {A = AuthContext} sample_identity sample_identity
resolve-same_example =
    resolve-same plain server_cfg sample_env logged_in later_on [] [] (some (116 ∷ 0 ∷ []))
      sample_identity sample_identity tokens_apart logged_in-reached
      (served at_start (token_event (call_with token_form))) resolves_before resolves_after

abbrev issued_code : AuthCode
issued_code = stored_code server_cfg (99 ∷ []) (117 ∷ []) [] [] (116 ∷ 0 ∷ []) 1000000

read_only : is_readonly server_cfg ≡ true
unfolding is_readonly default_config lit ◌==◌ lower
read_only = refl

Reach-OnlyGets_example : All IsGet logged_in.sent
Reach-OnlyGets_example =
    Reach-OnlyGets plain (by_session server_cfg) sample_env logged_in read_only logged_in-reached
