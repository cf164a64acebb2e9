-- ===== src/Examples/Codes.antt =====
-- Runs of the authorization codes.
use cisco_ise_mcp.Prelude.{[], arith, refl, some, true, ◌*◌, ◌+◌, ◌∷◌, ◌≡◌, ◌≢◌, ◌≤◌}
use cisco_ise_mcp.Auth.Provider.{after_validation, create_session, login}
use cisco_ise_mcp.Auth.Session.{Session, microseconds}
use cisco_ise_mcp.Auth.Store.{create, empty_store}
use cisco_ise_mcp.Config.Record.{Config}
use cisco_ise_mcp.Dict.{lookup, remove}
use cisco_ise_mcp.Errors.{ok}
use cisco_ise_mcp.Examples.{sample_cfg, sample_env, sample_identity, sample_world}
use cisco_ise_mcp.Exec.{asks, lift, on_codes, on_store, pure, time, token, ◌>>=◌}
use cisco_ise_mcp.Oauth.{
  client_ok, code_ttl, compare_digest, exchange_code, granted_token, login_and_issue_code, pkce_ok,
  pop_code, redeem,
}
use cisco_ise_mcp.Oauth.Grants.{exchange_code-IsGrantable}
use cisco_ise_mcp.Oauth.Laws.{IsGrantable}
use cisco_ise_mcp.Oauth.RoundTrip.{issue-exchange, stored_code}
use cisco_ise_mcp.Oauth.SingleUse.{Attempt, exchange, grants_of, grants_of-le-one}
use cisco_ise_mcp.Prelude.Int.{pos}
use cisco_ise_mcp.Text.{◌==◌}
use cisco_ise_mcp.World.{AuthCode, World}

abbrev oauth_cfg : Config
oauth_cfg = record sample_cfg { oauth_client_id = 99 ∷ []; oauth_client_secret = 115 ∷ [] }

abbrev issued_code : AuthCode
issued_code = record {
  client_id = 99 ∷ [];
  redirect_uri = 117 ∷ [];
  scope = 119 ∷ [];
  session_id = 116 ∷ [];
  challenge = 35 ∷ 118 ∷ [];
  created = 0;
}

abbrev code_world : World
code_world = record sample_world { codes = (107 ∷ [], issued_code) ∷ []; readings = 119 }

abbrev attempt : Attempt
attempt = record {
  issued = some (107 ∷ []);
  redirect_uri = some (117 ∷ []);
  client_id = some (99 ∷ []);
  client_secret = some (115 ∷ []);
  verifier = some (118 ∷ []);
}

is_redeemed : (exchange oauth_cfg attempt sample_env code_world).0 ≡ ok (granted_token issued_code)
unfolding exchange_code pop_code redeem client_ok compare_digest pkce_ok ◌>>=◌ on_codes time asks
    lift pure lookup remove ◌==◌
is_redeemed = refl

exchange_code-IsGrantable_example :
    IsGrantable oauth_cfg sample_env code_world
      (some (107 ∷ []))
      (some (117 ∷ []))
      (some (99 ∷ []))
      (some (115 ∷ []))
      (some (118 ∷ []))
      issued_code
exchange_code-IsGrantable_example =
    exchange_code-IsGrantable oauth_cfg (some (107 ∷ [])) (some (117 ∷ [])) (some (99 ∷ []))
      (some (115 ∷ [])) (some (118 ∷ [])) sample_env code_world issued_code is_redeemed

grants_of-le-one_example :
    grants_of oauth_cfg (107 ∷ []) (attempt ∷ attempt ∷ []) sample_env code_world ≤ 1
grants_of-le-one_example =
    grants_of-le-one oauth_cfg (107 ∷ []) (attempt ∷ attempt ∷ []) sample_env code_world

is_unknown : client_ok oauth_cfg (some (99 ∷ [])) (some (120 ∷ [])) ≢ ok true
unfolding client_ok compare_digest ◌==◌
is_unknown e = cc

-- The session of the first login, and the world after it.
abbrev first_session : Session
first_session = record {
  session_id = 116 ∷ 0 ∷ [];
  username = 97 ∷ [];
  auth = sample_identity;
  created_at = 0;
  last_used_at = 0;
  ttl_seconds = pos 3600;
  idle_timeout_seconds = pos 900;
}

abbrev login_world : World
login_world = (login oauth_cfg (97 ∷ []) (112 ∷ []) sample_env sample_world).1

is_logged_in :
    login oauth_cfg (97 ∷ []) (112 ∷ []) sample_env sample_world ≡ (ok first_session, login_world)
unfolding login after_validation create_session create empty_store ◌>>=◌ time token on_store
is_logged_in = refl

abbrev issued_world : World
issued_world =
    (login_and_issue_code oauth_cfg (97 ∷ []) (112 ∷ []) (99 ∷ []) (117 ∷ []) [] (35 ∷ 118 ∷ [])
      sample_env sample_world).1

is_client : client_ok oauth_cfg (some (99 ∷ [])) (some (115 ∷ [])) ≡ ok true
unfolding client_ok compare_digest ◌==◌
is_client = refl

abbrev first_code : AuthCode
first_code =
    stored_code oauth_cfg (99 ∷ []) (117 ∷ []) [] (35 ∷ 118 ∷ []) (116 ∷ 0 ∷ [])
      (sample_env.clock login_world.readings)

is_proven : pkce_ok sample_env.code_challenge first_code (some (118 ∷ [])) ≡ ok true
unfolding pkce_ok compare_digest ◌==◌
is_proven = refl

in_time :
    sample_env.clock issued_world.readings
    ≤ sample_env.clock login_world.readings + code_ttl * microseconds
unfolding login_and_issue_code login after_validation create_session ◌>>=◌ time token on_store
    on_codes pure
in_time = omega arith

issue-exchange_example :
    ((login_and_issue_code oauth_cfg
        (97 ∷ [])
        (112 ∷ [])
        (99 ∷ [])
        (117 ∷ [])
        []
        (35 ∷ 118 ∷ [])
        sample_env
        sample_world).0
      ≡ ok (sample_env.token_urlsafe login_world.tokens))
    × ((exchange_code oauth_cfg
          (some (sample_env.token_urlsafe login_world.tokens))
          (some (117 ∷ []))
          (some (99 ∷ []))
          (some (115 ∷ []))
          (some (118 ∷ []))
          sample_env
          issued_world).0
        ≡ ok (granted_token first_code))
issue-exchange_example =
    issue-exchange oauth_cfg (97 ∷ []) (112 ∷ []) (99 ∷ []) (117 ∷ []) [] (35 ∷ 118 ∷ [])
      (some (115 ∷ [])) (some (118 ∷ [])) sample_env sample_world login_world issued_world
      first_session is_logged_in refl is_client is_proven in_time
