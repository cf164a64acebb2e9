-- ===== src/Tools.antt =====
-- tools/__init__.py: who is calling, and the frame that every tool runs in
pub mod Endpoint
pub mod Listing
pub mod Sessions
pub mod Policy
pub mod Identity
pub mod Health
pub mod Write
pub mod Safety
pub mod Effects
pub mod Queries
pub mod Calls
use cisco_ise_mcp.Prelude.{
  Bool, List, Option, [], drop, false, if◌then◌else◌, none, some, true, ◌∷◌,
}
use cisco_ise_mcp.Audit.{audit_records}
use cisco_ise_mcp.Auth.Context.{AuthContext}
use cisco_ise_mcp.Auth.Provider.{Provider, passthrough, resolve, service_account, session_live}
use cisco_ise_mcp.Config.Record.{Config}
use cisco_ise_mcp.Dict.{Dict, lookup}
use cisco_ise_mcp.Errors.{Error, Result, detail, err, ok, status, type_name}
use cisco_ise_mcp.Exec.{Exec, asks, caught, lift, pure, write_audit, ◌>>=◌, ◌>>◌}
use cisco_ise_mcp.Oauth.{compare_digest}
use cisco_ise_mcp.Responses.{error_response}
use cisco_ise_mcp.Text.{Text, lit, lower, or_else, starts_with, strip, truthy}
use cisco_ise_mcp.Validation.Gate.{assert_tool_enabled, assert_write_allowed}
use cisco_ise_mcp.Value.{Value}

pub record Deps : Type 0 where
  pub cfg : Config
  pub provider : Provider

-- `headers.get(name)`, which does not heed case; the names of the dict are in lower case.
abbrev pub header : Dict Text → Text → Option Text
header headers name = lookup (lower name) headers

abbrev bearer_or : Option Text → Text → Option Text
bearer_or sid authz =
    if starts_with (lower authz) (lit "bearer ") then some (strip (drop 7 authz)) else sid

abbrev pub text_or_empty : Option Text → Text
text_or_empty none = []
text_or_empty (some s) = s

-- `mcp_session_id(header_name)` for the headers of the current request; off HTTP there are none.
unfoldable pub mcp_session_id : Dict Text → Text → Option Text
mcp_session_id [] name = none
mcp_session_id (h ∷ hs) name =
    let headers = h ∷ hs in
    let sid =
      or_else (or_else (header headers (lit "x-api-key")) (header headers name))
        (header headers (lower name)) in
    if truthy sid then sid else bearer_or sid (text_or_empty (header headers (lit "authorization")))

-- `any(secrets.compare_digest(tok, k) for k in keys)`
unfoldable pub any_digest : Text → List Text → Result Bool
unfolding compare_digest
any_digest tok [] = ok false
any_digest tok (k ∷ ks) =
    let rest = any_digest tok ks in
    elim (compare_digest tok k) [ err e ↦ err e | ok b ↦ if b then ok true else rest ]

-- `_is_api_key(tok)`
unfoldable pub is_api_key : Config → Option Text → Result Bool
unfolding any_digest
is_api_key cfg none = ok false
is_api_key cfg (some []) = ok false
is_api_key cfg (some (c ∷ tok)) = any_digest (c ∷ tok) cfg.api_keys

-- `getattr(self.provider, "session_valid", None)` and its call
abbrev pub provider_session_valid : Provider → Option Text → Exec Bool
provider_session_valid passthrough tok = session_live tok
provider_session_valid (service_account auth) tok = pure false

-- `session_valid(tok)`
unfoldable pub session_valid : Deps → Option Text → Exec Bool
unfolding ◌>>=◌ is_api_key session_live
session_valid deps tok = do
  key ← lift (is_api_key deps.cfg tok)
  if key then pure true else provider_session_valid deps.provider tok

abbrev pub key_identity : Config → AuthContext
key_identity cfg = record {
  username = cfg.ise_username;
  mode = lit "api_key";
  password = cfg.ise_password;
  encoded = [];
}

-- `resolve_auth()` for a token
unfoldable pub resolve_token : Deps → Option Text → Exec AuthContext
unfolding ◌>>=◌ is_api_key resolve
resolve_token deps tok = do
  key ← lift (is_api_key deps.cfg tok)
  if key then pure (key_identity deps.cfg) else resolve deps.provider tok

-- `session_id()`
unfoldable pub session_id : Deps → Exec (Option Text)
unfolding asks mcp_session_id
session_id deps = asks (λ env. mcp_session_id env.request_headers deps.cfg.session_header)

-- `resolve_auth()`
unfoldable pub resolve_auth : Deps → Exec AuthContext
unfolding ◌>>=◌ session_id resolve_token
resolve_auth deps = do tok ← session_id deps; resolve_token deps tok

module _ (deps : Deps) (name : Text) (params : Value) where
  abbrev record_call : Text → Text → Option Text → Exec (Unit {0})
  record_call actor status detail =
      write_audit (audit_records deps.cfg.audit_log_enabled actor name params status detail)

  -- The `except` branch of `run`.
  unfoldable pub failed : Text → Error → Exec Value
  unfolding ◌>>=◌ write_audit audit_records error_response type_name
  failed actor e = do record_call actor (lit "error") (some (type_name e)); pure (error_response e)

  unfoldable pub finished : Text → Result Value → Exec Value
  unfolding ◌>>=◌ write_audit audit_records failed
  finished actor (err e) = failed actor e
  finished actor (ok result) = do record_call actor (lit "ok") none; pure result

  -- The call of the tool with the identity, once that is known.
  unfoldable pub call_as : (AuthContext → Exec Value) → Result AuthContext → Exec Value
  unfolding ◌>>=◌ caught finished failed
  call_as fn (err e) = failed (lit "unknown") e
  call_as fn (ok auth) = do result ← caught (fn auth); finished auth.username result

-- The gates of `run`: the flag says that the tool writes.
unfoldable pub gate : Config → Text → Bool → Result (Unit {0})
unfolding assert_tool_enabled assert_write_allowed
gate cfg name write = elim (assert_tool_enabled cfg name) [
  | err e ↦ err e
  | ok u ↦ if write then assert_write_allowed cfg name else ok u
]

-- The gates and the identity, in the order of `run`.
unfoldable pub admit : Deps → Text → Bool → Exec AuthContext
unfolding ◌>>=◌ gate resolve_auth
admit deps name write = do lift (gate deps.cfg name write); resolve_auth deps

-- `run(deps, name, params, fn, write=...)`
unfoldable pub run : Deps → Text → Value → (AuthContext → Exec Value) → Bool → Exec Value
unfolding ◌>>=◌ caught admit call_as
run deps name params fn write = do
  auth ← caught (admit deps name write)
  call_as deps name params fn auth
