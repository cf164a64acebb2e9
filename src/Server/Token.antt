-- ===== src/Server/Token.antt =====
-- server.py: the endpoint /token
pub mod Laws
use cisco_ise_mcp.Prelude.{List, Option, [], drop, if◌then◌else◌, none, some, take, ℕ, ◌&&◌, ◌∷◌}
use cisco_ise_mcp.Auth.Context.{partition_colon}
use cisco_ise_mcp.Auth.Provider.{Provider, login, passthrough, service_account}
use cisco_ise_mcp.Auth.Session.{Session}
use cisco_ise_mcp.Config.Record.{Config}
use cisco_ise_mcp.Dict.{Dict, lookup}
use cisco_ise_mcp.Errors.{Result, err, ok, status}
use cisco_ise_mcp.Exec.{Exec, asks, caught, pure, ◌>>=◌, ◌>>◌}
use cisco_ise_mcp.Oauth.{
  Exchange, base_token, exchange_code, granted_token, invalid_client, invalid_grant, refresh,
}
use cisco_ise_mcp.Server.{Answer, HttpCall, get_text, json_page}
use cisco_ise_mcp.Text.{Text, lit, lower, or_else, strip, truthy, ◌==◌}
use cisco_ise_mcp.Tools.{Deps}
use cisco_ise_mcp.Value.{Value, dict, int, str}

abbrev decoded_onto : Option Text × Option Text → Option Text → Option Text × Option Text
decoded_onto given none = given
decoded_onto (cid, csec) (some s) =
    let (u, p) = partition_colon s in (or_else cid (some u), or_else csec (some p))

-- `_client_creds(request, form)`, where `decode` is `b64decode(s).decode()`
unfoldable pub client_creds :
    (Text → Option Text) → List (Text × Text) → Dict Text → Option Text × Option Text
unfolding partition_colon lower
client_creds decode headers form =
    let cid = lookup (lit "client_id") form in
    let csec = lookup (lit "client_secret") form in
    let authz = get_text headers (lit "authorization") in
    if truthy cid && truthy csec
    then (cid, csec)
    else if lower (take 6 authz) == lit "basic "
    then decoded_onto (cid, csec) (decode (drop 6 authz))
    else (cid, csec)

-- `out(body, status)`
unfoldable pub out : ℕ → List (Text × Value) → Answer
out status body = json_page status ((lit "Cache-Control", lit "no-store") ∷ []) (dict body)

abbrev pub oauth_error : Text → List (Text × Value)
oauth_error e = (lit "error", str e) ∷ []

abbrev described : Text → Text → List (Text × Value)
described e d = (lit "error", str e) ∷ (lit "error_description", str d) ∷ []

abbrev pub login_grant : Config → Result Session → Answer
login_grant cfg (err e) = out 401 (oauth_error (lit "invalid_client"))
login_grant cfg (ok sess) = out 200 (
    (lit "access_token", str sess.session_id)
    ∷ (lit "token_type", str (lit "Bearer"))
    ∷ (lit "expires_in", int cfg.session_ttl_seconds)
    ∷ [])

-- The grant `client_credentials`: the credentials are those of ISE.
unfoldable pub client_credentials : Config → Option Text → Option Text → Exec Answer
unfolding ◌>>=◌ caught login out
client_credentials cfg (some (c ∷ cid)) (some (d ∷ csec)) = do
  sess ← caught (login cfg (c ∷ cid) (d ∷ csec))
  pure (login_grant cfg sess)
client_credentials cfg _ _ =
    pure (out 400 (described (lit "invalid_request") (lit "missing client credentials")))

abbrev pub exchange_answer : Config → Exchange → Answer
exchange_answer cfg (granted_token rec) = out 200 (base_token cfg rec.session_id rec.scope)
exchange_answer cfg invalid_client = out 401 (oauth_error (lit "invalid_client"))
exchange_answer cfg invalid_grant = out 400 (oauth_error (lit "invalid_grant"))

-- What `_token` does for each grant.
unfoldable pub grant : Config → Text → Dict Text → Option Text × Option Text → Exec Answer
unfolding ◌>>=◌ client_credentials exchange_code refresh
grant cfg kind form (cid, csec) =
    if kind == lit "client_credentials"
    then client_credentials cfg cid csec
    else if kind == lit "authorization_code"
    then (do
      r ←
          exchange_code cfg (lookup (lit "code") form) (lookup (lit "redirect_uri") form) cid csec
            (lookup (lit "code_verifier") form)
      pure (exchange_answer cfg r))
    else if kind == lit "refresh_token"
    then (do r ← refresh cfg cid csec; pure (exchange_answer cfg r))
    else pure (out 400 (oauth_error (lit "unsupported_grant_type")))

abbrev pub form_or_empty : Result (Dict Text) → Dict Text
form_or_empty (ok form) = form
form_or_empty (err e) = []

abbrev pub token_for : Config → Provider → HttpCall → Exec Answer
token_for cfg (service_account auth) call =
    pure (out 400 (described (lit "invalid_request") (lit "requires passthrough mode")))
token_for cfg passthrough call =
    let form = form_or_empty call.form in
    do
      decode ← asks (λ env. env.decode_base64)
      grant cfg (strip (get_text form (lit "grant_type"))) form
          (client_creds decode call.headers form)

-- `_token(request)`
unfoldable pub token_endpoint : Deps → HttpCall → Exec Answer
unfolding ◌>>=◌ asks client_creds grant strip
token_endpoint deps call = token_for deps.cfg deps.provider call
