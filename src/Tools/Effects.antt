-- ===== src/Tools/Effects.antt =====
-- What the frame of a tool call leaves behind, for any relation that the parts of the frame keep.
use cisco_ise_mcp.Prelude.{Bool, List, Option, ◌++◌}
use cisco_ise_mcp.Audit.{AuditRecord}
use cisco_ise_mcp.Auth.Context.{AuthContext}
use cisco_ise_mcp.Auth.Provider.{
  Provider, get_session, login, logout, passthrough, resolve, service_account, session_live,
}
use cisco_ise_mcp.Config.Record.{Config}
use cisco_ise_mcp.Errors.{Error, Result, err, ok}
use cisco_ise_mcp.Exec.{Exec, write_audit}
use cisco_ise_mcp.Exec.Effects.{
  AdmitsMethod, Effect, Keeps, bind-Keeps, caught-Keeps, keeping, weaken,
}
use cisco_ise_mcp.Text.{Text, lit}
use cisco_ise_mcp.Tools.{
  Deps, admit, call_as, failed, finished, provider_session_valid, resolve_auth, resolve_token, run,
  session_id, session_valid,
}
use cisco_ise_mcp.Tools.Health.{ise_login, ise_logout, login_with, logout_with}
use cisco_ise_mcp.Value.{Value}
use cisco_ise_mcp.World.{Env, World}

-- Relations that the calls of the session store by the provider keep.
pub record AdmitsSessions (cfg : Config) (e : Effect) : Type 0 where
  pub at_login :
      (env : Env) (w : World) (username password : Text)
      → Effect.Rel e env w (login cfg username password env w).1
  pub at_get :
      (env : Env) (w : World) (sid : Option Text) → Effect.Rel e env w (get_session sid env w).1
  pub at_logout :
      (env : Env) (w : World) (sid : Option Text) → Effect.Rel e env w (logout sid env w).1

module _ (cfg : Config) where
  pub login-Keeps :
      (username password : Text) → Keeps (AdmitsSessions cfg) (login cfg username password)
  login-Keeps username password = record { keeps = λ e l env w. l.at_login env w username password }

  get_session-Keeps : (sid : Option Text) → Keeps (AdmitsSessions cfg) (get_session sid)
  get_session-Keeps sid = record { keeps = λ e l env w. l.at_get env w sid }

  pub logout-Keeps : (sid : Option Text) → Keeps (AdmitsSessions cfg) (logout sid)
  logout-Keeps sid = record { keeps = λ e l env w. l.at_logout env w sid }

  pub session_live-Keeps : (sid : Option Text) → Keeps (AdmitsSessions cfg) (session_live sid)
  unfolding session_live
  session_live-Keeps sid = search (keeping, get_session-Keeps)

  resolve-Keeps :
      (provider : Provider) (sid : Option Text) → Keeps (AdmitsSessions cfg) (resolve provider sid)
  unfolding resolve
  resolve-Keeps (service_account auth) sid = search keeping
  resolve-Keeps passthrough sid = search (keeping, get_session-Keeps)

pub session_id-Keeps : {Laws : Effect → Type 0} (deps : Deps) → Keeps Laws (session_id deps)
unfolding session_id
session_id-Keeps deps = search keeping

resolve_token-Keeps :
    (deps : Deps) (tok : Option Text) → Keeps (AdmitsSessions deps.cfg) (resolve_token deps tok)
unfolding resolve_token
resolve_token-Keeps deps tok = search (keeping, resolve-Keeps)

resolve_auth-Keeps : (deps : Deps) → Keeps (AdmitsSessions deps.cfg) (resolve_auth deps)
unfolding resolve_auth
resolve_auth-Keeps deps = search (keeping, resolve_token-Keeps)

pub admit-Keeps :
    (deps : Deps) (name : Text) (write : Bool)
    → Keeps (AdmitsSessions deps.cfg) (admit deps name write)
unfolding admit
admit-Keeps deps name write = search (keeping, resolve_auth-Keeps)

provider_session_valid-Keeps :
    (cfg : Config) (provider : Provider) (tok : Option Text)
    → Keeps (AdmitsSessions cfg) (provider_session_valid provider tok)
provider_session_valid-Keeps cfg (service_account auth) tok = search keeping
provider_session_valid-Keeps cfg passthrough tok = session_live-Keeps cfg tok

pub session_valid-Keeps :
    (deps : Deps) (tok : Option Text) → Keeps (AdmitsSessions deps.cfg) (session_valid deps tok)
unfolding session_valid
session_valid-Keeps deps tok = search (keeping, provider_session_valid-Keeps)

login_with-Keeps :
    (deps : Deps) (provider : Provider) (username password : Text)
    → Keeps (AdmitsSessions deps.cfg) (login_with deps provider username password)
login_with-Keeps deps (service_account auth) username password = search keeping
login_with-Keeps deps passthrough username password = search (keeping, login-Keeps)

pub ise_login-Keeps :
    (deps : Deps) (username password : Text)
    → Keeps (AdmitsSessions deps.cfg) (ise_login deps username password)
unfolding ise_login
ise_login-Keeps deps username password = login_with-Keeps deps deps.provider username password

logout_with-Keeps :
    (deps : Deps) (provider : Provider)
    → Keeps (AdmitsSessions deps.cfg) (logout_with deps provider)
logout_with-Keeps deps (service_account auth) = search keeping
logout_with-Keeps deps passthrough = search (keeping, logout-Keeps, session_id-Keeps)

pub ise_logout-Keeps : (deps : Deps) → Keeps (AdmitsSessions deps.cfg) (ise_logout deps)
unfolding ise_logout
ise_logout-Keeps deps = logout_with-Keeps deps deps.provider

-- Relations that also the audit log and the requests with a method keep.
pub record AdmitsFrame (cfg : Config) (method : Text) (e : Effect) : Type 0 where
  pub sessions : AdmitsSessions cfg e
  pub requests : AdmitsMethod method e
  pub at_audit :
      (env : Env) (w : World) (records : List AuditRecord)
      → Effect.Rel e env w (record w { audits = w.audits ++ records })

module _ (deps : Deps) (method name : Text) (params : Value) where
  audit-Keeps :
      (records : List AuditRecord) → Keeps (AdmitsFrame deps.cfg method) (write_audit records)
  unfolding write_audit
  audit-Keeps records = record { keeps = λ e l env w. l.at_audit env w records }

  failed-Keeps :
      (actor : Text) (x : Error)
      → Keeps (AdmitsFrame deps.cfg method) (failed deps name params actor x)
  unfolding failed
  failed-Keeps actor x = search (keeping, audit-Keeps)

  finished-Keeps :
      (actor : Text) (r : Result Value)
      → Keeps (AdmitsFrame deps.cfg method) (finished deps name params actor r)
  unfolding finished
  finished-Keeps actor (ok v) = search (keeping, audit-Keeps)
  finished-Keeps actor (err x) = failed-Keeps actor x

  call_as-Keeps :
      (fn : AuthContext → Exec Value) (r : Result AuthContext)
      → ((auth : AuthContext) → Keeps (AdmitsMethod method) (fn auth))
      → Keeps (AdmitsFrame deps.cfg method) (call_as deps name params fn r)
  unfolding call_as
  call_as-Keeps fn (err x) h = failed-Keeps (lit "unknown") x
  call_as-Keeps fn (ok auth) h =
      bind-Keeps _ _ (caught-Keeps _ (weaken (fn auth) (λ e l. l.requests) (h auth)))
        (finished-Keeps auth.username)

  -- A tool whose own code keeps what its requests keep.
  pub run-Keeps :
      (fn : AuthContext → Exec Value) (write : Bool)
      → ((auth : AuthContext) → Keeps (AdmitsMethod method) (fn auth))
      → Keeps (AdmitsFrame deps.cfg method) (run deps name params fn write)
  unfolding run
  run-Keeps fn write h =
      bind-Keeps _ _ (caught-Keeps _ (weaken _ (λ e l. l.sessions) (admit-Keeps deps name write)))
        (λ r. call_as-Keeps fn r h)
