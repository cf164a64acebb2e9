-- ===== src/Tools/Calls/Denied.antt =====
-- What happens to a call of a tool that the settings do not allow.
use cisco_ise_mcp.Prelude.{Bool, arith, false, inl, inr, some, subst, sym, true, ◌++◌, ◌≡◌, ◌⊎◌}
use cisco_ise_mcp.Audit.{audit_records}
use cisco_ise_mcp.Auth.Context.{AuthContext}
use cisco_ise_mcp.Config.Record.{Config}
use cisco_ise_mcp.Errors.{Error, Result, code, err, ok, type_name}
use cisco_ise_mcp.Exec.{Exec}
use cisco_ise_mcp.Responses.{error_response}
use cisco_ise_mcp.Text.{Text, contains, lit}
use cisco_ise_mcp.Tools.{Deps, gate, run}
use cisco_ise_mcp.Tools.Calls.{ToolCall, call_tool}
use cisco_ise_mcp.Tools.Calls.Names.{call_tool-RunsAs, is_framed, tool_name}
use cisco_ise_mcp.Tools.Listing.{listed}
use cisco_ise_mcp.Tools.Safety.{gate-MayWrite, gate-cases, run-gate}
use cisco_ise_mcp.Validation.Gate.{
  assert_tool_enabled, assert_write_allowed, dangerous_tools, is_tool_enabled, write_tools,
}
use cisco_ise_mcp.Validation.Gate.Laws.{MayWrite, enabled_iff}
use cisco_ise_mcp.Value.{Value}
use cisco_ise_mcp.World.{Env, World}

abbrev pub IsRefusal : Error → Type 0
IsRefusal e = (code e ≡ lit "tool_disabled") ⊎ (code e ≡ lit "write_not_allowed")

abbrev RefusesOnly : Result (Unit {0}) → Type 0
RefusesOnly (ok u) = Unit
RefusesOnly (err e) = IsRefusal e

-- The outcome of a call that is denied: the refusal, with one entry in the audit log, and nothing else.
pub record Denied (cfg : Config) (name : Text) (w : World) (done : Result Value × World)
    : Type 0 where
  pub e : Error
  pub refusal : IsRefusal e
  pub params : Value
  pub outcome : done ≡ (
    ok (error_response e),
    record w {
      audits =
          w.audits
          ++ audit_records cfg.audit_log_enabled
              (lit "unknown")
              name
              params
              (lit "error")
              (some (type_name e));
    },
  )

enabled-RefusesOnly : (cfg : Config) (name : Text) → RefusesOnly (assert_tool_enabled cfg name)
unfolding assert_tool_enabled code
enabled-RefusesOnly cfg name = ground arith

gate-RefusesOnly : (cfg : Config) (name : Text) (write : Bool) → RefusesOnly (gate cfg name write)
unfolding gate assert_write_allowed code
gate-RefusesOnly cfg name write = ground (arith, enabled-RefusesOnly cfg name)

-- A gate that lets a tool through has checked all that the settings ask for.
enabled :
    (cfg : Config) (name : Text) → gate cfg name false ≡ ok tt → is_tool_enabled cfg name ≡ true
unfolding gate assert_tool_enabled
enabled cfg name h = ground arith

passed-MayWrite :
    (cfg : Config) (name : Text) (write : Bool)
    → (write ≡ true)
      ⊎ ((contains write_tools name ≡ false) × (contains dangerous_tools name ≡ false))
    → gate cfg name write ≡ ok tt
    → MayWrite cfg name
passed-MayWrite cfg name true c h = gate-MayWrite cfg name h
passed-MayWrite cfg name false (inl never) h = cc
passed-MayWrite cfg name false (inr (no_write, safe)) h =
    let (on, listed) = (enabled_iff cfg name).0 (enabled cfg name h) in
    record { not_disabled = on; listed = listed; writable = inl no_write; danger = inl safe }

run-Denied :
    (deps : Deps) (name : Text) (params : Value) (fn : AuthContext → Exec Value) (write : Bool)
    (env : Env) (w : World)
    → (write ≡ true)
      ⊎ ((contains write_tools name ≡ false) × (contains dangerous_tools name ≡ false))
    → ¬ MayWrite deps.cfg name
    → Denied deps.cfg name w (run deps name params fn write env w)
run-Denied deps name params fn write env w c h = elim (gate-cases (gate deps.cfg name write)) [
  | inl passed ↦ absurd (h (passed-MayWrite deps.cfg name write c passed))
  | inr (e, refused) ↦ record {
    e = e;
    refusal = subst RefusesOnly refused (gate-RefusesOnly deps.cfg name write);
    params = params;
    outcome = run-gate deps name params fn write e env w refused;
  }
]

-- A call of any tool that runs in the frame (all but the health check, the login and the logout), with any
-- arguments, is denied if the settings do not allow the tool: it is disabled, or is not listed where only
-- some are allowed, or writes on a server that is not in read-write mode, or is dangerous while dangerous
-- tools are not enabled. It is then answered with an error whose code is tool_disabled or
-- write_not_allowed, one entry with an unknown actor is added to the audit log if that is enabled, and
-- nothing else changes.
pub call_tool-Denied :
    (deps : Deps) (call : ToolCall) (env : Env) (w : World)
    → is_framed call ≡ true
    → ¬ MayWrite deps.cfg (tool_name call)
    → Denied deps.cfg (tool_name call) w (call_tool deps call env w)
call_tool-Denied deps call env w framed h =
    let framing = call_tool-RunsAs deps call framed in
    subst (λ (m : Exec Value). Denied deps.cfg (tool_name call) w (m env w)) (sym framing.runs)
      (run-Denied deps (tool_name call) framing.params framing.fn framing.write env w
        framing.checked h)
