-- ===== src/Server/Authorize.antt =====
-- server.py: the endpoint /authorize, the form and its submission
pub mod Laws
use cisco_ise_mcp.Prelude.{Bool, List, [], false, if◌then◌else◌, map, not, some, true, ◌||◌, ◌∷◌}
use cisco_ise_mcp.Auth.Provider.{Provider, passthrough, service_account}
use cisco_ise_mcp.Config.Record.{Config}
use cisco_ise_mcp.Dict.{Dict, lookup}
use cisco_ise_mcp.Errors.{Result, err, ok}
use cisco_ise_mcp.Exec.{Exec, caught, lift, pure, ◌>>=◌, ◌>>◌}
use cisco_ise_mcp.Oauth.{compare_digest, login_and_issue_code, redirect_ok}
use cisco_ise_mcp.Server.{Answer, HttpCall, get_text, html_page, plain_page, redirect_page}
use cisco_ise_mcp.Server.Page.{login_page}
use cisco_ise_mcp.Server.Redirect.{redirect_with_code}
use cisco_ise_mcp.Text.{Text, lit, ◌==◌}
use cisco_ise_mcp.Tools.{Deps}

abbrev param_names : List Text
param_names =
    lit "client_id" ∷ lit "redirect_uri" ∷ lit "scope" ∷ lit "state" ∷ lit "code_challenge" ∷ []

-- `{k: d.get(k, "") for k in (...)}`
unfoldable pub page_params : Dict Text → Dict Text
unfolding lookup
page_params d = map (λ k. (k, get_text d k)) param_names

abbrev not_enabled : Answer
not_enabled = plain_page 404 (lit "OAuth authorization is not enabled")

-- What `_authorize_get` answers once the comparison of the client is known.
abbrev form_for : Config → Dict Text → Bool → Answer
form_for cfg q false = plain_page 400 (lit "invalid client_id")
form_for cfg q true =
    if redirect_ok cfg (lookup (lit "redirect_uri") q)
    then html_page 200 (login_page (page_params q) [])
    else plain_page 400 (lit "invalid redirect_uri")

abbrev pub form_of : Config → Dict Text → Exec Answer
form_of cfg q =
    if get_text q (lit "response_type") == lit "code"
    then (do
      known ← lift (compare_digest (get_text q (lit "client_id")) cfg.oauth_client_id)
      pure (form_for cfg q known))
    else pure (plain_page 400 (lit "unsupported_response_type"))

abbrev pub form_by : Provider → Config → Dict Text → Exec Answer
form_by (service_account auth) cfg q = pure not_enabled
form_by passthrough cfg q = form_of cfg q

-- `_authorize_get(request)`
unfoldable pub authorize_get : Deps → HttpCall → Exec Answer
unfolding ◌>>=◌ compare_digest redirect_ok login_page page_params
authorize_get deps call = form_by deps.provider deps.cfg call.query

-- What the browser gets for the outcome of the login.
abbrev pub login_outcome : Dict Text → Result Text → Answer
login_outcome form (err e) =
    html_page 401 (login_page (page_params form) (lit "Invalid ISE credentials. Please try again."))
login_outcome form (ok issued) =
    redirect_page 302
      (redirect_with_code (get_text form (lit "redirect_uri")) issued (get_text form (lit "state")))

abbrev pub issue_code : Config → Dict Text → Exec Text
issue_code cfg form =
    login_and_issue_code cfg (get_text form (lit "username")) (get_text form (lit "password"))
      (get_text form (lit "client_id")) (get_text form (lit "redirect_uri"))
      (get_text form (lit "scope")) (get_text form (lit "code_challenge"))

-- The submission by a client, once it is known whether that is the configured one.
unfoldable pub submit_for : Config → Dict Text → Bool → Exec Answer
unfolding ◌>>=◌ caught login_and_issue_code redirect_ok login_page redirect_with_code
submit_for cfg form known =
    if not known || not (redirect_ok cfg (some (get_text form (lit "redirect_uri"))))
    then pure (plain_page 400 (lit "invalid client or redirect_uri"))
    else do issued ← caught (issue_code cfg form); pure (login_outcome form issued)

abbrev pub submit_by : Provider → Config → HttpCall → Exec Answer
submit_by (service_account auth) cfg call = pure not_enabled
submit_by passthrough cfg call = do
  form ← lift call.form
  known ← lift (compare_digest (get_text form (lit "client_id")) cfg.oauth_client_id)
  submit_for cfg form known

-- `_authorize_post(request)`
unfoldable pub authorize_post : Deps → HttpCall → Exec Answer
unfolding ◌>>=◌ compare_digest submit_for
authorize_post deps call = submit_by deps.provider deps.cfg call
