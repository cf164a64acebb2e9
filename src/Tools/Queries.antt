-- ===== src/Tools/Queries.antt =====
-- What the frame of a tool call adds to a query: a record in the audit log.
use cisco_ise_mcp.Prelude.{
  All, Bool, List, Option, [], ap, false, none, refl, some, true, ◌++◌, ◌∷◌, ◌≡◌,
}
use cisco_ise_mcp.Audit.{audit_records}
use cisco_ise_mcp.Auth.Context.{AuthContext}
use cisco_ise_mcp.Auth.Provider.{after_validation, create_session, get_session, login, logout}
use cisco_ise_mcp.Config.Record.{Config}
use cisco_ise_mcp.Errors.{Result, err, ok, type_name}
use cisco_ise_mcp.Exec.{Exec, caught, on_store, pure, time, token, write_audit, ◌>>=◌}
use cisco_ise_mcp.Exec.Effects.{AdmitsMethod, Effect, IsQuery, Keeps, keeping, weaken}
use cisco_ise_mcp.Exec.Reads.{
  IsGet, Reads, Reads-trans, query-Reads, reading, reading-AdmitsMethod, still,
}
use cisco_ise_mcp.Ise.Client.{validate_credentials}
use cisco_ise_mcp.Ise.Client.Effects.{validate_credentials-IsQuery}
use cisco_ise_mcp.Text.{Text, lit}
use cisco_ise_mcp.Tools.{Deps, admit, call_as, failed, finished, run}
use cisco_ise_mcp.Tools.Effects.{AdmitsSessions, admit-Keeps}
use cisco_ise_mcp.Value.{Value}
use cisco_ise_mcp.World.{Env, HttpRequest, World}

-- One call of a tool: whatever it sent are GET requests, and it added what the audit of one call adds.
pub record Audited (enabled : Bool) (name : Text) (w w' : World) : Type 0 where
  pub actor : Text
  pub params : Value
  pub status : Text
  pub detail : Option Text
  pub audits : w'.audits ≡ w.audits ++ audit_records enabled actor name params status detail
  pub new : List HttpRequest
  pub sent : w'.sent ≡ new ++ w.sent
  pub gets : All IsGet new

-- Relations that the probe of a login and a new session keep.
record AdmitsLogin (e : Effect) : Type 0 where
  requests : AdmitsMethod (lit "GET") e
  at_create :
      (env : Env) (w : World) (username : Text) (auth : AuthContext)
      → Effect.Rel e env w (create_session username auth env w).1

create_session-Keeps :
    (username : Text) (auth : AuthContext) → Keeps AdmitsLogin (create_session username auth)
create_session-Keeps username auth = record { keeps = λ e l env w. l.at_create env w username auth }

after_validation-Keeps :
    (username password : Text) (r : Result Bool)
    → Keeps AdmitsLogin (after_validation username password r)
unfolding after_validation
after_validation-Keeps username password (err x) = search keeping
after_validation-Keeps username password (ok false) = search keeping
after_validation-Keeps username password (ok true) = create_session-Keeps username _

validation-Keeps :
    (cfg : Config) (username password : Text)
    → Keeps AdmitsLogin (validate_credentials cfg username password)
validation-Keeps cfg username password =
    weaken _ (λ e l. l.requests) (validate_credentials-IsQuery cfg username password)

login-AdmitsLogin :
    (cfg : Config) (username password : Text) → Keeps AdmitsLogin (login cfg username password)
unfolding login
login-AdmitsLogin cfg username password = search (keeping, validation-Keeps, after_validation-Keeps)

get_session-Reads : (sid : Option Text) (env : Env) (w : World) → Reads w (get_session sid env w).1
unfolding get_session ◌>>=◌ time on_store pure
get_session-Reads none env w = still w _ refl refl refl
get_session-Reads (some []) env w = still w _ refl refl refl
get_session-Reads (some (c ∷ sid)) env w = still w _ refl refl refl

logout-Reads : (sid : Option Text) (env : Env) (w : World) → Reads w (logout sid env w).1
unfolding logout on_store
logout-Reads sid env w = still w _ refl refl refl

reading-AdmitsLogin : AdmitsLogin reading
unfolding create_session ◌>>=◌ time token on_store
reading-AdmitsLogin = record {
  requests = reading-AdmitsMethod;
  at_create = λ env w username auth. still w _ refl refl refl;
}

pub reading-AdmitsSessions : (cfg : Config) → AdmitsSessions cfg reading
reading-AdmitsSessions cfg = record {
  at_login = λ env w username password.
      (login-AdmitsLogin cfg username password).keeps reading reading-AdmitsLogin env w;
  at_get = λ env w sid. get_session-Reads sid env w;
  at_logout = λ env w sid. logout-Reads sid env w;
}

-- The world after a query and one more audit record.
with_record :
    (enabled : Bool) (name actor : Text) (params : Value) (status : Text) (detail : Option Text)
    (w w' : World)
    → Reads w w'
    → Audited enabled name w
        (record w' { audits = w'.audits ++ audit_records enabled actor name params status detail })
with_record enabled name actor params status detail w w' r = record {
  actor = actor;
  params = params;
  status = status;
  detail = detail;
  audits = ap (λ a. a ++ audit_records enabled actor name params status detail) r.audits;
  new = r.new;
  sent = r.sent;
  gets = r.gets;
}

finished-Audited :
    (deps : Deps) (name : Text) (params : Value) (actor : Text) (r : Result Value) (env : Env)
    (w w' : World)
    → Reads w w'
    → Audited deps.cfg.audit_log_enabled name w (finished deps name params actor r env w').1
unfolding ◌>>=◌ write_audit failed finished pure
finished-Audited deps name params actor (ok v) env w w' h =
    with_record deps.cfg.audit_log_enabled name actor params (lit "ok") none w w' h
finished-Audited deps name params actor (err e) env w w' h =
    with_record deps.cfg.audit_log_enabled name actor params (lit "error") (some (type_name e)) w w'
      h

call_as-Audited :
    (deps : Deps) (name : Text) (params : Value) (fn : AuthContext → Exec Value)
    (r : Result AuthContext) (env : Env) (w w' : World)
    → ((auth : AuthContext) → IsQuery (fn auth))
    → Reads w w'
    → Audited deps.cfg.audit_log_enabled name w (call_as deps name params fn r env w').1
unfolding ◌>>=◌ write_audit failed call_as caught pure
call_as-Audited deps name params fn (ok auth) env w w' k h =
    finished-Audited deps name params auth.username (fn auth env w').0 env w (fn auth env w').1
      (Reads-trans h (query-Reads (fn auth) env w' (k auth)))
call_as-Audited deps name params fn (err e) env w w' k h =
    with_record deps.cfg.audit_log_enabled name (lit "unknown") params (lit "error")
      (some (type_name e)) w w' h

-- A call of a tool whose own code only queries sends only GET requests, and adds to the audit log what
-- the audit of one call of the tool adds, whether it is refused, fails or succeeds.
pub run-Audited :
    (deps : Deps) (name : Text) (params : Value) (fn : AuthContext → Exec Value) (write : Bool)
    (env : Env) (w : World)
    → ((auth : AuthContext) → IsQuery (fn auth))
    → Audited deps.cfg.audit_log_enabled name w (run deps name params fn write env w).1
unfolding run ◌>>=◌ caught
run-Audited deps name params fn write env w k =
    call_as-Audited deps name params fn (admit deps name write env w).0 env w
      (admit deps name write env w).1 k
      ((admit-Keeps deps name write).keeps reading (reading-AdmitsSessions deps.cfg) env w)
