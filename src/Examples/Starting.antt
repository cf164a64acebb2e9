-- ===== src/Examples/Starting.antt =====
-- The start of the server, and a client that logs in and is served.
use cisco_ise_mcp.Prelude.{List, [], arith, false, inr, refl, some, true, ◌↔◌, ◌∷◌, ◌≡◌}
use cisco_ise_mcp.Auth.Provider.Login.{own_auth}
use cisco_ise_mcp.Auth.Session.{Session}
use cisco_ise_mcp.Auth.Store.{empty_store}
use cisco_ise_mcp.Auth.Store.View.{IsWithin}
use cisco_ise_mcp.Config.Laws.{IsUsable, validate_iff}
use cisco_ise_mcp.Config.Load.{load_config}
use cisco_ise_mcp.Config.Record.{default_config}
use cisco_ise_mcp.Config.Validate.{validate}
use cisco_ise_mcp.Dict.{Dict, lookup}
use cisco_ise_mcp.Errors.{ok}
use cisco_ise_mcp.Examples.{sample_env, sample_store, sample_world}
use cisco_ise_mcp.Examples.Server.{call_with, server_cfg, token_form}
use cisco_ise_mcp.Exec.{Exec, pure}
use cisco_ise_mcp.Logging.{RootLogger, level_of}
use cisco_ise_mcp.Server.{Answer, HttpCall, get_text, headers_of, lowered, plain_page}
use cisco_ise_mcp.Server.Build.{build, main}
use cisco_ise_mcp.Server.Build.Laws.{HasKnownLevel, build_iff, deps_of, launch_of, main-launches}
use cisco_ise_mcp.Server.Gate.{sid_of}
use cisco_ise_mcp.Server.Gate.Headers.{sid_of-eq-mcp_session_id}
use cisco_ise_mcp.Server.Gate.Laws.{by_session}
use cisco_ise_mcp.Server.Serves.{token_endpoint-serves}
use cisco_ise_mcp.Server.Token.{client_creds, form_or_empty, login_grant, token_endpoint}
use cisco_ise_mcp.Text.{
  Text, contains, is_space, lit, lower, rstrip_slash, split, strip, upper, ◌==◌,
}
use cisco_ise_mcp.Tools.{Deps, is_api_key, mcp_session_id, resolve_token, session_valid}
use cisco_ise_mcp.World.{World}

serves_in_time : IsWithin 0 0 3000000 sample_store.ttl sample_store.idle
unfolding empty_store
serves_in_time = record {
  in_ttl = inr (3600, refl, omega arith);
  in_idle = inr (900, refl, omega arith);
}

abbrev served_world : World
served_world =
    record (token_endpoint (by_session server_cfg) (call_with token_form) sample_env
      sample_world).1 { readings = 3 }

no_api_key : is_api_key server_cfg (some (116 ∷ 0 ∷ [])) ≡ ok false
unfolding is_api_key default_config
no_api_key = refl

credentials_presented :
    client_creds sample_env.decode_base64 (call_with token_form).headers token_form
    ≡ (some (97 ∷ []), some (112 ∷ []))
unfolding client_creds lookup lit ◌==◌
credentials_presented = refl

grant_type_read :
    strip (get_text (form_or_empty (call_with token_form).form) (lit "grant_type"))
    ≡ lit "client_credentials"
unfolding lookup lit ◌==◌ strip is_space
grant_type_read = refl

token_endpoint-serves_example :
    (s : Session) × (s.session_id ≡ 116 ∷ 0 ∷ [])
    × ((token_endpoint (by_session server_cfg) (call_with token_form) sample_env sample_world).0
        ≡ ok (login_grant server_cfg (ok s)))
    × ((session_valid (by_session server_cfg) (some (116 ∷ 0 ∷ [])) sample_env served_world).0
        ≡ ok true)
    × ((resolve_token (by_session server_cfg) (some (116 ∷ 0 ∷ [])) sample_env served_world).0
        ≡ ok (own_auth (97 ∷ []) (112 ∷ [])))
token_endpoint-serves_example =
    token_endpoint-serves server_cfg (call_with token_form) (97 ∷ []) (112 ∷ []) 116 (0 ∷ [])
      sample_env sample_world served_world grant_type_read credentials_presented refl refl refl refl
      no_api_key refl (omega arith) serves_in_time

abbrev silent_root : RootLogger
silent_root = record { handlers = []; level = 30 }

build_iff_example : ((build (some server_cfg) [] silent_root).0 ≡ ok (deps_of server_cfg)) ↔ (
    IsUsable server_cfg
    × HasKnownLevel server_cfg
    × (◌≡◌ {A = Deps} (deps_of server_cfg) (deps_of server_cfg)))
build_iff_example = build_iff server_cfg [] silent_root (deps_of server_cfg)

abbrev address_only : Dict Text
address_only = (lit "ISE_BASE_URL", lit "https://ise") ∷ []

loaded_IsUsable : IsUsable (load_config address_only)
unfolding load_config lookup lit ◌==◌ rstrip_slash lower strip is_space split
loaded_IsUsable = (validate_iff (load_config address_only)).0 (unfold validate contains in refl)

loaded_HasKnownLevel : HasKnownLevel (load_config address_only)
unfolding load_config level_of lookup lit ◌==◌ upper
loaded_HasKnownLevel = (20, refl)

abbrev plain_app : Deps → HttpCall → Exec Answer
plain_app deps call = pure (plain_page 200 [])

main-launches_example :
    (main plain_app address_only silent_root).0
    ≡ ok (launch_of plain_app (load_config address_only))
main-launches_example =
    main-launches plain_app address_only silent_root loaded_IsUsable loaded_HasKnownLevel

abbrev key_header : List (Text × Text)
key_header = (lit "X-API-Key", 116 ∷ []) ∷ []

sid_of-eq-mcp_session_id_example :
    sid_of server_cfg (headers_of key_header)
    ≡ mcp_session_id (lowered key_header) server_cfg.session_header
sid_of-eq-mcp_session_id_example =
    sid_of-eq-mcp_session_id server_cfg key_header (unfold lit in refl)
      (unfold lookup in (refl, tt))
