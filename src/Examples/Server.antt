-- ===== src/Examples/Server.antt =====
-- Runs of the HTTP server.
use cisco_ise_mcp.Prelude.{List, [], refl, true, ◌∷◌, ◌≡◌, ◌⊎◌}
use cisco_ise_mcp.Auth.Store.History.{Call, after, create_call}
use cisco_ise_mcp.Config.Record.{Config, default_config}
use cisco_ise_mcp.Dict.{Dict, lookup}
use cisco_ise_mcp.Errors.{ok}
use cisco_ise_mcp.Examples.{sample_cfg, sample_env, sample_identity, sample_world}
use cisco_ise_mcp.Exec.{asks, pure, ◌>>=◌}
use cisco_ise_mcp.Prelude.Int.{pos}
use cisco_ise_mcp.Server.{HttpCall, headers_of, json_page, plain_page, redirect_page}
use cisco_ise_mcp.Server.Authorize.{authorize_post}
use cisco_ise_mcp.Server.Authorize.Laws.{MayRedirect, authorize_post-redirects}
use cisco_ise_mcp.Server.Gate.{is_guarded, require_auth, sid_of, unauthorized}
use cisco_ise_mcp.Server.Gate.Laws.{IsGranted, by_session, require_auth-IsGranted}
use cisco_ise_mcp.Server.Page.{login_page}
use cisco_ise_mcp.Server.Page.Laws.{login_page-marks, marks}
use cisco_ise_mcp.Server.Redirect.{redirect_with_code}
use cisco_ise_mcp.Server.Token.{client_creds, token_endpoint}
use cisco_ise_mcp.Server.Token.Laws.{ByCode, ByLogin, token_endpoint-200}
use cisco_ise_mcp.Text.{Text, contains, is_space, lit, rstrip_slash, strip, ◌==◌}
use cisco_ise_mcp.Value.{Value, dict, int, str}
use cisco_ise_mcp.World.{World}

abbrev pub server_cfg : Config
server_cfg = record sample_cfg {
  oauth_client_id = 99 ∷ [];
  oauth_client_secret = 115 ∷ [];
  oauth_redirect_uris = (117 ∷ []) ∷ [];
}

abbrev pub call_with : Dict Text → HttpCall
call_with form = record {
  type = lit "http";
  path = lit "/mcp/";
  headers = (lit "x-api-key", 116 ∷ 0 ∷ []) ∷ [];
  query = [];
  form = ok form;
}

abbrev one_login : List Call
one_login = create_call 0 (116 ∷ 0 ∷ []) (97 ∷ []) sample_identity ∷ []

abbrev login_world : World
login_world = record sample_world { store = after (pos 3600) (pos 900) one_login; readings = 2 }

mcp_is_guarded : is_guarded server_cfg (call_with []) ≡ true
unfolding is_guarded lit ◌==◌ default_config rstrip_slash
mcp_is_guarded = refl

require_auth-IsGranted_example :
    ((require_auth
          (by_session server_cfg)
          (pure (plain_page 200 []))
          (call_with [])
          sample_env
          login_world).0
        ≡ ok (unauthorized (call_with []))
      × ((require_auth
            (by_session server_cfg)
            (pure (plain_page 200 []))
            (call_with [])
            sample_env
            login_world).1.sent
          ≡ []))
    ⊎ IsGranted (pos 3600) one_login (sid_of server_cfg (headers_of (call_with []).headers)) 2000000
require_auth-IsGranted_example =
    require_auth-IsGranted (pos 3600) (pos 900) one_login server_cfg (pure (plain_page 200 []))
      (call_with []) sample_env login_world refl (unfold default_config in refl) mcp_is_guarded

abbrev pub token_form : Dict Text
token_form =
    (lit "grant_type", lit "client_credentials")
    ∷ (lit "client_id", 97 ∷ [])
    ∷ (lit "client_secret", 112 ∷ [])
    ∷ []

abbrev token_body : Value
token_body = dict (
    (lit "access_token", str (116 ∷ 0 ∷ []))
    ∷ (lit "token_type", str (lit "Bearer"))
    ∷ (lit "expires_in", int server_cfg.session_ttl_seconds)
    ∷ [])

abbrev no_store : List (Text × Text)
no_store = (lit "Cache-Control", lit "no-store") ∷ []

token_is_issued :
    (token_endpoint (by_session server_cfg) (call_with token_form) sample_env sample_world).0
    ≡ ok (json_page 200 no_store token_body)
unfolding token_endpoint ◌>>=◌ asks lit ◌==◌ lookup strip is_space
token_is_issued = refl

token_endpoint-200_example :
    ByLogin server_cfg
      (client_creds sample_env.decode_base64 (call_with token_form).headers token_form)
      sample_env
      sample_world
      token_body
    ⊎ ByCode server_cfg token_form
        (client_creds sample_env.decode_base64 (call_with token_form).headers token_form)
        sample_env
        sample_world
        token_body
token_endpoint-200_example =
    token_endpoint-200 server_cfg (call_with token_form) sample_env sample_world no_store token_body
      token_is_issued

abbrev pub login_form : Dict Text
login_form =
    (lit "client_id", 99 ∷ [])
    ∷ (lit "redirect_uri", 117 ∷ [])
    ∷ (lit "username", 97 ∷ [])
    ∷ (lit "password", 112 ∷ [])
    ∷ []

is_redirected :
    (authorize_post (by_session server_cfg) (call_with login_form) sample_env sample_world).0
    ≡ ok (redirect_page 302 (redirect_with_code (117 ∷ []) (116 ∷ 1 ∷ []) []))
unfolding authorize_post ◌>>=◌ lit ◌==◌ lookup contains
is_redirected = refl

authorize_post-redirects_example :
    MayRedirect server_cfg login_form sample_env sample_world
      (redirect_with_code (117 ∷ []) (116 ∷ 1 ∷ []) [])
authorize_post-redirects_example =
    authorize_post-redirects (by_session server_cfg) (call_with login_form) login_form sample_env
      sample_world 302 (redirect_with_code (117 ∷ []) (116 ∷ 1 ∷ []) []) refl is_redirected

abbrev quoted : Dict Text
quoted = (lit "state", 34 ∷ 62 ∷ []) ∷ []

login_page-marks_example : marks (login_page quoted (60 ∷ [])) ≡ marks (login_page [] (97 ∷ []))
login_page-marks_example = login_page-marks quoted [] (60 ∷ []) (97 ∷ []) refl
