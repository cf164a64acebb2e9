-- ===== src/Tools/Health.antt =====
-- tools/health.py: the health check, and the tools of the caller's own session
use cisco_ise_mcp.Prelude.{[], false, not, true, ◌++◌, ◌∷◌}
use cisco_ise_mcp.Auth.Provider.{Provider, login, logout, passthrough, service_account}
use cisco_ise_mcp.Auth.Session.{Session}
use cisco_ise_mcp.Config.Record.{is_readonly}
use cisco_ise_mcp.Errors.{Result, err, ok, python_error}
use cisco_ise_mcp.Exec.{Exec, caught, pure, ◌>>=◌}
use cisco_ise_mcp.Responses.{error_response, ok_response, plain_response}
use cisco_ise_mcp.Text.{Text, lit}
use cisco_ise_mcp.Tools.{Deps, run, session_id}
use cisco_ise_mcp.Value.{Value, bool, dict, null, str}

unfoldable pub ise_health_check : Deps → Exec Value
ise_health_check deps = pure (
    plain_response (
      dict (
        (lit "status", str (lit "ok"))
        ∷ (lit "ise_base_url", str deps.cfg.ise_base_url)
        ∷ (lit "ise_version", str deps.cfg.ise_version)
        ∷ (lit "auth_mode", str deps.cfg.auth_mode)
        ∷ (lit "mcp_mode", str deps.cfg.mcp_mode)
        ∷ (lit "readonly", bool (is_readonly deps.cfg))
        ∷ [])))

unfoldable pub ise_auth_status : Deps → Exec Value
ise_auth_status deps =
    run deps (lit "ise_auth_status") (dict [])
      (λ auth. pure (
        plain_response (
          dict (
            (lit "authenticated", bool true)
            ∷ (lit "username", str auth.username)
            ∷ (lit "mode", str auth.mode)
            ∷ []))))
      false

-- What `ise_login` answers to the outcome of the login.
abbrev login_answer : Deps → Result Session → Value
login_answer deps (err e) = error_response e
login_answer deps (ok sess) =
    ok_response
      (dict ((lit "session_id", str sess.session_id) ∷ (lit "username", str sess.username) ∷ []))
      null false
      ((
        lit "note",
        str (
            lit "Present this id in the "
            ++ (deps.cfg.session_header ++ lit " header (or Authorization: Bearer).")),
      )
        ∷ [])

abbrev pub login_with : Deps → Provider → Text → Text → Exec Value
login_with deps (service_account auth) username password = pure (
    error_response (
      python_error (lit "RuntimeError")
        (lit "ise_login is only available when ISE_AUTH_MODE=passthrough")))
login_with deps passthrough username password = do
  sess ← caught (login deps.cfg username password)
  pure (login_answer deps sess)

unfoldable pub ise_login : Deps → Text → Text → Exec Value
unfolding ◌>>=◌ caught login
ise_login deps username password = login_with deps deps.provider username password

unfoldable pub ise_validate_session : Deps → Exec Value
ise_validate_session deps =
    run deps (lit "ise_validate_session") (dict [])
      (λ auth. pure (
        plain_response (
          dict (
            (lit "valid", bool true)
            ∷ (lit "username", str auth.username)
            ∷ (lit "mode", str auth.mode)
            ∷ []))))
      false

abbrev pub logout_with : Deps → Provider → Exec Value
logout_with deps (service_account auth) = pure (
    plain_response (
      dict (
        (lit "logged_out", bool false) ∷ (lit "reason", str (lit "not in passthrough mode")) ∷ [])))
logout_with deps passthrough = do
  sid ← session_id deps
  gone ← logout sid
  pure (plain_response (dict ((lit "logged_out", bool gone) ∷ [])))

unfoldable pub ise_logout : Deps → Exec Value
unfolding ◌>>=◌ session_id logout
ise_logout deps = logout_with deps deps.provider

unfoldable pub ise_whoami : Deps → Exec Value
ise_whoami deps =
    run deps (lit "ise_whoami") (dict [])
      (λ auth. pure (
        plain_response (
          dict (
            (lit "username", str auth.username)
            ∷ (lit "mode", str auth.mode)
            ∷ (lit "mcp_mode", str deps.cfg.mcp_mode)
            ∷ (lit "can_write", bool (not (is_readonly deps.cfg)))
            ∷ []))))
      false
