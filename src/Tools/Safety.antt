-- ===== src/Tools/Safety.antt =====
-- What `run` does with a tool that may not be called, and with a call that raises.
use cisco_ise_mcp.Prelude.{
  Bool, Option, arith, false, inl, inr, refl, some, subst, sym, true, ◌++◌, ◌≡◌, ◌⊎◌,
}
use cisco_ise_mcp.Audit.{audit_records}
use cisco_ise_mcp.Auth.Context.{AuthContext}
use cisco_ise_mcp.Config.Record.{Config, is_readonly}
use cisco_ise_mcp.Errors.{Error, Result, err, ok, type_name}
use cisco_ise_mcp.Exec.{Exec, caught, lift, pure, write_audit, ◌>>=◌}
use cisco_ise_mcp.Responses.{error_response}
use cisco_ise_mcp.Text.{Text, contains, lit, lower, ◌==◌}
use cisco_ise_mcp.Text.Laws.{==_iff}
use cisco_ise_mcp.Tools.{Deps, admit, call_as, failed, finished, gate, run}
use cisco_ise_mcp.Tools.Write.{ise_assign_endpoint_group, ise_create_endpoint, ise_delete_endpoint}
use cisco_ise_mcp.Validation.Gate.{assert_write_allowed, dangerous_tools, write_tools}
use cisco_ise_mcp.Validation.Gate.Laws.{MayWrite, assert_write_allowed_iff}
use cisco_ise_mcp.Value.{Value}
use cisco_ise_mcp.World.{Env, World}

-- The answer of a refused call, and the part of the world that it leaves as it was.
pub record Refused (w : World) (done : Result Value × World) : Type 0 where
  pub answer : (e : Error) × (done.0 ≡ ok (error_response e))
  pub sent : done.1.sent ≡ w.sent
  pub store : done.1.store ≡ w.store
  pub codes : done.1.codes ≡ w.codes

-- A call that the gates refuse is answered with the refusal and audited under an unknown actor; the
-- identity is not looked up, and the tool's own code does not run.
pub run-gate :
    (deps : Deps) (name : Text) (params : Value) (fn : AuthContext → Exec Value) (write : Bool)
    (e : Error) (env : Env) (w : World)
    → gate deps.cfg name write ≡ err e
    → run deps name params fn write env w ≡ (
      ok (error_response e),
      record w {
        audits =
            w.audits
            ++ audit_records deps.cfg.audit_log_enabled
                (lit "unknown")
                name
                params
                (lit "error")
                (some (type_name e));
      },
    )
unfolding run ◌>>=◌ caught admit lift call_as failed write_audit pure
run-gate deps name params fn write e env w h = rw h refl

finished-ok :
    (deps : Deps) (name : Text) (params : Value) (actor : Text) (r : Result Value) (env : Env)
    (w : World)
    → (v : Value) × ((finished deps name params actor r env w).0 ≡ ok v)
unfolding ◌>>=◌ write_audit failed finished pure
finished-ok deps name params actor (ok v) env w = (v, refl)
finished-ok deps name params actor (err e) env w = (error_response e, refl)

call_as-ok :
    (deps : Deps) (name : Text) (params : Value) (fn : AuthContext → Exec Value)
    (r : Result AuthContext) (env : Env) (w : World)
    → (v : Value) × ((call_as deps name params fn r env w).0 ≡ ok v)
unfolding ◌>>=◌ write_audit failed call_as caught pure
call_as-ok deps name params fn (ok auth) env w =
    finished-ok deps name params auth.username (fn auth env w).0 env (fn auth env w).1
call_as-ok deps name params fn (err e) env w = (error_response e, refl)

-- A tool call always returns a response: whatever the tool's code raises is caught.
pub run-returns :
    (deps : Deps) (name : Text) (params : Value) (fn : AuthContext → Exec Value) (write : Bool)
    (env : Env) (w : World)
    → (v : Value) × ((run deps name params fn write env w).0 ≡ ok v)
unfolding run ◌>>=◌ caught
run-returns deps name params fn write env w =
    call_as-ok deps name params fn (admit deps name write env w).0 env
      (admit deps name write env w).1

run-Refused :
    (deps : Deps) (name : Text) (params : Value) (fn : AuthContext → Exec Value) (write : Bool)
    (e : Error) (env : Env) (w : World)
    → gate deps.cfg name write ≡ err e
    → Refused w (run deps name params fn write env w)
run-Refused deps name params fn write e env w h =
    subst (Refused w) (sym (run-gate deps name params fn write e env w h))
      (record { answer = (e, refl); sent = refl; store = refl; codes = refl })

-- Whether a gate lets a call through.
pub gate-cases : (r : Result (Unit {0})) → (r ≡ ok tt) ⊎ ((e : Error) × (r ≡ err e))
gate-cases (ok u) = inl refl
gate-cases (err e) = inr (e, refl)

pub gate-MayWrite : (cfg : Config) (name : Text) → gate cfg name true ≡ ok tt → MayWrite cfg name
unfolding gate assert_write_allowed
gate-MayWrite cfg name h = (assert_write_allowed_iff cfg name).0 (ground arith)

-- A tool that writes is refused unless the configuration allows it to write.
write-Refused :
    (deps : Deps) (name : Text) (params : Value) (fn : AuthContext → Exec Value) (env : Env)
    (w : World)
    → ¬ MayWrite deps.cfg name
    → Refused w (run deps name params fn true env w)
write-Refused deps name params fn env w h = elim (gate-cases (gate deps.cfg name true)) [
  | inl e ↦ absurd (h (gate-MayWrite deps.cfg name e))
  | inr (e, refused) ↦ run-Refused deps name params fn true e env w refused
]

readonly-not-MayWrite :
    (cfg : Config) (name : Text)
    → is_readonly cfg ≡ true
    → contains write_tools name ≡ true
    → ¬ MayWrite cfg name
unfolding is_readonly
readonly-not-MayWrite cfg name h k m =
    ground (arith, MayWrite.writable m, ==_iff (lower cfg.mcp_mode) (lit "readwrite"))

create-writes : contains write_tools (lit "ise_create_endpoint") ≡ true
unfolding contains ◌==◌ lit
create-writes = refl

assign-writes : contains write_tools (lit "ise_assign_endpoint_group") ≡ true
unfolding contains ◌==◌ lit
assign-writes = refl

delete-writes : contains write_tools (lit "ise_delete_endpoint") ≡ true
unfolding contains ◌==◌ lit
delete-writes = refl

delete-IsDangerous : contains dangerous_tools (lit "ise_delete_endpoint") ≡ true
unfolding contains ◌==◌ lit
delete-IsDangerous = refl

safe-not-MayWrite :
    (cfg : Config) (name : Text)
    → cfg.enable_dangerous_tools ≡ false
    → contains dangerous_tools name ≡ true
    → ¬ MayWrite cfg name
safe-not-MayWrite cfg name h k m = ground (arith, MayWrite.danger m)

-- On a read-only server all three tools that write are refused, whatever their arguments: nothing is
-- sent to ISE, and the sessions and the authorization codes stay as they were.
pub readonly-Refused :
    (deps : Deps) (mac description endpoint_id group : Text) (group_id : Option Text) (env : Env)
    (w : World)
    → is_readonly deps.cfg ≡ true
    → Refused w (ise_create_endpoint deps mac group_id description env w)
      × Refused w (ise_assign_endpoint_group deps endpoint_id group env w)
      × Refused w (ise_delete_endpoint deps endpoint_id env w)
unfolding ise_create_endpoint ise_assign_endpoint_group ise_delete_endpoint
readonly-Refused deps mac description endpoint_id group group_id env w h = (
  write-Refused deps _ _ _ env w
      (readonly-not-MayWrite deps.cfg (lit "ise_create_endpoint") h create-writes),
  write-Refused deps _ _ _ env w
      (readonly-not-MayWrite deps.cfg (lit "ise_assign_endpoint_group") h assign-writes),
  write-Refused deps _ _ _ env w
      (readonly-not-MayWrite deps.cfg (lit "ise_delete_endpoint") h delete-writes),
)

-- A tool that deletes is refused, with the same effects, unless dangerous tools are enabled.
pub delete-Refused :
    (deps : Deps) (endpoint_id : Text) (env : Env) (w : World)
    → deps.cfg.enable_dangerous_tools ≡ false
    → Refused w (ise_delete_endpoint deps endpoint_id env w)
unfolding ise_delete_endpoint
delete-Refused deps endpoint_id env w h =
    write-Refused deps _ _ _ env w
      (safe-not-MayWrite deps.cfg (lit "ise_delete_endpoint") h delete-IsDangerous)
