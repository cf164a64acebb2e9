-- ===== src/Auth/Provider.antt =====
-- auth/passthrough.py and auth/service_account.py: how a session id resolves to an identity
pub mod Login
pub mod Resolve
use cisco_ise_mcp.Prelude.{
  Bool, Option, [], false, if◌then◌else◌, is_empty, is_some, none, not, some, true, ◌||◌, ◌∷◌,
}
use cisco_ise_mcp.Auth.Context.{AuthContext}
use cisco_ise_mcp.Auth.Session.{Session}
use cisco_ise_mcp.Auth.Store.{create, delete, get}
use cisco_ise_mcp.Config.Record.{Config}
use cisco_ise_mcp.Config.Validate.{has_service_credentials}
use cisco_ise_mcp.Errors.{Result, auth_error, err, ok, session_error}
use cisco_ise_mcp.Exec.{Exec, caught, lift, on_store, pure, raise, time, token, ◌>>=◌, ◌>>◌}
use cisco_ise_mcp.Ise.Client.{validate_credentials}
use cisco_ise_mcp.Text.{Text, lit, or_text}

pub data Provider : Type 0 where
  passthrough : Provider
  service_account : AuthContext → Provider

-- `ServiceAccountProvider(cfg)`
unfoldable pub service_account_of : Config → Result Provider
service_account_of cfg =
    if not (has_service_credentials cfg)
    then err (
        auth_error (lit "service_account mode needs ISE_USERNAME/ISE_PASSWORD or ISE_ENCODED_AUTH"))
    else ok (
        service_account (record {
          username = or_text cfg.ise_username (lit "(encoded)");
          mode = lit "service_account";
          password = cfg.ise_password;
          encoded = cfg.ise_encoded_auth;
        }))

-- `SessionStore.create` with the clock and the token that it reads
unfoldable pub create_session : Text → AuthContext → Exec Session
unfolding ◌>>=◌ time token on_store create
create_session username auth = do now ← time; sid ← token; on_store (create now sid username auth)

-- `SessionStore.get`, which reads the clock only for an id that is not empty
unfoldable pub get_session : Option Text → Exec (Option Session)
unfolding ◌>>=◌ time on_store get
get_session none = pure none
get_session (some []) = pure none
get_session (some (c ∷ sid)) = do now ← time; on_store (get now (some (c ∷ sid)))

-- What `login` does with the outcome of the validation.
unfoldable pub after_validation : Text → Text → Result Bool → Exec Session
unfolding create_session
after_validation username password (err e) =
    raise (auth_error (lit "ISE credential validation failed"))
after_validation username password (ok false) = raise (auth_error (lit "Invalid ISE credentials"))
after_validation username password (ok true) =
    create_session username
      (record { username = username; mode = lit "passthrough"; password = password; encoded = [] })

-- `PassthroughProvider.login`, with `IseClient.validate_credentials` as its validator
unfoldable pub login : Config → Text → Text → Exec Session
unfolding ◌>>=◌ caught validate_credentials after_validation
login cfg username password =
    if is_empty username || is_empty password
    then raise (auth_error (lit "username and password are required"))
    else do
      valid ← caught (validate_credentials cfg username password)
      after_validation username password valid

-- `PassthroughProvider.logout`
unfoldable pub logout : Option Text → Exec Bool
unfolding on_store delete
logout sid = on_store (delete sid)

-- `PassthroughProvider.session_valid`
unfoldable pub session_live : Option Text → Exec Bool
unfolding ◌>>=◌ get_session
session_live sid = do found ← get_session sid; pure (is_some found)

abbrev pub identity_of : Option Session → Result AuthContext
identity_of none = err (session_error (lit "Missing or expired MCP session; call ise_login first"))
identity_of (some s) = ok s.auth

-- `resolve` of both providers
unfoldable pub resolve : Provider → Option Text → Exec AuthContext
unfolding ◌>>=◌ get_session
resolve (service_account auth) sid = pure auth
resolve passthrough sid = do found ← get_session sid; lift (identity_of found)
